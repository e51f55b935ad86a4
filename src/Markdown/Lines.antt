-- ===== src/Markdown/Lines.antt =====
-- The regular expressions by which renderMarkdown (website/src/lib/docs/markdown.tsx) classifies a
-- line, each as a function on the line's code units. Greedy matching with backtracking is written
-- out where it decides the result.
use shadownet_agent.Common.{
  ℕ, zero, suc, Bool, true, false, not, ◌&&◌, ◌||◌, Option, none, some, List, [], ◌∷◌, map, ◌==◌,
  leb, if◌then◌else◌, all, span, length,
}
use shadownet_agent.Common.Text.{
  Text, txt, starts_with, is_space, is_line_end, is_digit, trim, trim_start, split, includes,
  strip_suffix?,
}

-- /^```/
unfoldable pub is_fence : Text → Bool
is_fence line = starts_with line (txt "```")

-- /^\s*$/
unfoldable pub is_blank : Text → Bool
unfolding is_space
is_blank line = all is_space line

-- The run of `#` that `#{1,4}` takes, at most `n` of them, and the rest. A shorter run would be
-- followed by `#`, at which `\s+` fails, so it is never taken.
unfoldable pub hashes : ℕ → Text → ℕ × Text
hashes (suc n) (c ∷ s) =
    let more = hashes n s in if c == b'#' then (suc more.0, more.1) else (0, c ∷ s)
hashes _ s = (0, s)

-- `(.+)$`: a whole text that is not empty and holds no line terminator.
unfoldable pub dot_rest : Text → Option Text
unfolding is_line_end
dot_rest [] = none
dot_rest (c ∷ s) = if all (λ d. not (is_line_end d)) (c ∷ s) then some (c ∷ s) else none

-- `\s+(.+)$` and its group: `\s+` takes all it can, and gives units back while `(.+)$` fails.
unfoldable pub spaced_rest : Text → Option Text
unfolding dot_rest is_space
spaced_rest [] = none
spaced_rest (c ∷ s) =
    if is_space c then elim (spaced_rest s) [ none ↦ dot_rest s | some r ↦ some r ] else none

-- /^(#{1,4})\s+(.+)$/ with the length of its first group, and the second.
unfoldable pub heading : Text → Option (ℕ × Text)
heading line =
    let (n, rest) = hashes 4 line in
    if n == 0 then none else elim (spaced_rest rest) [ none ↦ none | some body ↦ some (n, body) ]

-- Whether a text begins with a white space unit: `\s+` as a test.
unfoldable pub starts_with_space : Text → Bool
unfolding is_space
starts_with_space [] = false
starts_with_space (c ∷ s) = is_space c

-- /^(#{1,4})\s+/
unfoldable pub is_heading_mark : Text → Bool
is_heading_mark line =
    let (n, rest) = hashes 4 line in if n == 0 then false else starts_with_space rest

-- /^>\s?/ and the text after it.
unfoldable pub quote_rest : Text → Option Text
unfolding is_space
quote_rest [] = none
quote_rest (c ∷ []) = if c == b'>' then some [] else none
quote_rest (c ∷ d ∷ s) = if c == b'>' then some (if is_space d then s else d ∷ s) else none

-- `\s+` at the head of a text, and the text after it.
unfoldable pub after_spaces : Text → Option Text
unfolding starts_with_space trim_start
after_spaces s = if starts_with_space s then some (trim_start s) else none

-- /^(\*|-)\s+/ and the text after it.
unfoldable pub bullet_rest : Text → Option Text
unfolding after_spaces
bullet_rest [] = none
bullet_rest (c ∷ s) = if c == b'*' || c == b'-' then after_spaces s else none

-- /^\d+\.\s+/ and the text after it.
unfoldable pub dot_after_digits : Text → Option Text
unfolding after_spaces
dot_after_digits [] = none
dot_after_digits (c ∷ s) = if c == b'.' then after_spaces s else none

unfoldable pub ordered_rest : Text → Option Text
unfolding is_digit span dot_after_digits
ordered_rest [] = none
ordered_rest (c ∷ s) = if is_digit c then dot_after_digits (span is_digit s).1 else none

abbrev pub is_some {ℓ} : {A : Type ℓ} → Option A → Bool
is_some none = false
is_some (some a) = true

-- /^(-{3,}|\*{3,}|_{3,})$/ on the trimmed line.
unfoldable pub is_rule : Text → Bool
is_rule line =
    let t = trim line in
    leb 3 (length t) && (all (λ c. c == b'-') t || all (λ c. c == b'*') t || all (λ c. c == b'_') t)

-- `isTableRow`: /\|/ and not /^\s*```/
unfoldable pub is_table_row : Text → Bool
is_table_row l = includes l (txt "|") && not (is_fence (trim_start l))

abbrev pub skip_one : ℕ → Text → Text
skip_one c [] = []
skip_one c (d ∷ s) = if d == c then s else d ∷ s

-- `\s*:?-{3,}:?\s*` and the text after it.
unfoldable pub after_cell : Text → Option Text
unfolding trim_start span
after_cell s =
    let dashes = span (λ c. c == b'-') (skip_one b':' (trim_start s)) in
    if leb 3 (length dashes.0) then some (trim_start (skip_one b':' dashes.1)) else none

-- `(\|` cell `)*\|?\s*$`, the fuel bounding the number of cells; a bar before a further cell must
-- belong to that cell, since a cell is not blank. `trim_start` was done by the cell before.
unfoldable pub more_cells : ℕ → Text → Bool
unfolding after_cell is_blank
more_cells zero s = false
more_cells (suc f) [] = true
more_cells (suc f) (c ∷ s) = elim (c == b'|') [
  | false ↦ false
  | true ↦ elim (after_cell s) [ none ↦ is_blank s | some rest ↦ more_cells f rest ]
]

-- `isTableSep`: /^\s*\|?\s*:?-{3,}:?\s*(\|\s*:?-{3,}:?\s*)+\|?\s*$/
unfoldable pub second_cell : Text → Bool
unfolding more_cells
second_cell [] = false
second_cell (c ∷ s) =
    if c == b'|'
    then elim (after_cell s) [ none ↦ false | some rest ↦ more_cells (suc (length rest)) rest ]
    else false

unfoldable pub is_table_sep : Text → Bool
is_table_sep l = elim (after_cell (skip_one b'|' (trim_start l))) [
  | none ↦ false
  | some rest ↦ second_cell rest
]

-- `splitCells`: the trimmed line less one bar at each end, cut at the bars, each part trimmed.
unfoldable pub split_cells : Text → List Text
split_cells l =
    let t = skip_one b'|' (trim l) in
    map trim (split b'|' (elim (strip_suffix? (txt "|") t) [ none ↦ t | some u ↦ u ]))
