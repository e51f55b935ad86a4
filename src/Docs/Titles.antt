-- ===== src/Docs/Titles.antt =====
-- The title of a Markdown file: readTitle and titleFromFilename of website/src/lib/docs/fs.ts.
use shadownet_agent.Common.{
  ℕ, ◌-◌, Bool, true, false, not, ◌&&◌, ◌||◌, Option, none, some, List, [], ◌∷◌, ◌==◌, leb,
  if◌then◌else◌, is_empty, all, any, span, drop,
}
use shadownet_agent.Common.Text.{Text, is_space, is_line_end, trim, strip_md, lines_of}

-- `.replace(/[-_]+/g, " ")`; the flag tells that a run has begun.
unfoldable pub spaced : Bool → Text → Text
spaced run [] = []
spaced run (c ∷ s) =
    let in_run = spaced true s in
    let out = spaced false s in
    if c == b'-' || c == b'_' then (if run then in_run else b' ' ∷ in_run) else c ∷ out

-- `\w`
unfoldable pub is_word : ℕ → Bool
is_word c =
    (leb b'a' c && leb c b'z')
    || (leb b'A' c && leb c b'Z')
    || (leb b'0' c && leb c b'9')
    || c == b'_'

abbrev pub upper_letter : ℕ → ℕ
upper_letter c = if leb b'a' c && leb c b'z' then c - 32 else c

-- `.replace(/\b\w/g, (c) => c.toUpperCase())`; the flag tells that a word character stands before.
unfoldable pub capitalize : Bool → Text → Text
capitalize inside [] = []
capitalize inside (c ∷ s) =
    (if is_word c && not inside then upper_letter c else c) ∷ capitalize (is_word c) s

-- titleFromFilename
unfoldable pub title_from_filename : Text → Text
title_from_filename name = capitalize false (spaced false (strip_md name))

-- /^#\s+(.+)\s*$/ and its group, trimmed. `\s+` gives a space back only if nothing else is left.
unfoldable pub title_of_line : Text → Option Text
title_of_line [] = none
title_of_line (c ∷ s) =
    let (spaces, after) = span is_space s in
    let (run, left) = span (λ d. not (is_line_end d)) after in
    if not (c == b'#') || is_empty spaces
    then none
    else if is_empty after
    then (if any (λ d. not (is_line_end d)) (drop 1 spaces) then some [] else none)
    else if all is_space left
    then some (trim run)
    else none

unfoldable pub first_title : List Text → Option Text
first_title [] = none
first_title (l ∷ ls) =
    let rest = first_title ls in elim (title_of_line l) [ none ↦ rest | some t ↦ some t ]

-- readTitle
unfoldable pub read_title : Text → Text → Text
read_title name contents = elim (first_title (lines_of contents)) [
  | none ↦ title_from_filename name
  | some t ↦ t
]
