-- ===== src/Markdown/Blocks/Slug.antt =====
-- slugify and nextId of website/src/lib/docs/markdown.tsx: the anchors of the headings.
use shadownet_agent.Common.{
  ℕ, ◌+◌, Bool, false, not, ◌||◌, List, [], ◌∷◌, ◌++◌, reverse, ◌==◌, if◌then◌else◌, is_empty,
  filter, span,
}
use shadownet_agent.Common.Text.{Text, txt, same, trim, decimal, Unicode}

-- /[`"'()[\]{}]/
unfoldable pub is_quote_or_bracket : ℕ → Bool
is_quote_or_bracket c =
    c == 0x60
    || c == 0x22
    || c == 0x27
    || c == 0x28
    || c == 0x29
    || c == 0x5b
    || c == 0x5d
    || c == 0x7b
    || c == 0x7d

-- `.replace(/[^\p{L}\p{N}]+/gu, "-")`; the flag says that a run is open.
unfoldable pub dash_runs : (ℕ → Bool) → Bool → Text → Text
dash_runs keep in_run [] = []
dash_runs keep in_run (c ∷ s) =
    let rest = dash_runs keep (not (keep c)) s in
    if keep c then c ∷ rest else if in_run then rest else b'-' ∷ rest

unfoldable pub strip_dashes : Text → Text
unfolding span
strip_dashes s = (span (λ c. c == b'-') s).1

-- The steps of slugify, in order.
unfoldable pub slugify : Unicode → Text → Text
slugify u text =
    let bare = filter (λ c. not (is_quote_or_bracket c)) (trim (u.to_lower (u.nfkd text))) in
    reverse (strip_dashes (reverse (strip_dashes (dash_runs u.is_letter_or_number false bare))))

-- The map `seenIds`.
abbrev pub Seen : Type 0
Seen = List (Text × ℕ)

unfoldable pub count_of : Text → Seen → ℕ
count_of key [] = 0
count_of key ((k, n) ∷ seen) = if same k key then n else count_of key seen

unfoldable pub set_count : Text → ℕ → Seen → Seen
set_count key n [] = (key, n) ∷ []
set_count key n ((k, m) ∷ seen) =
    if same k key then (k, n) ∷ seen else (k, m) ∷ set_count key n seen

-- `slugify(text) || "section"`
unfoldable pub base_id : Unicode → Text → Text
base_id u text = let slug = slugify u text in if is_empty slug then txt "section" else slug

-- The id of the heading that is the `n + 1`-st with this base.
unfoldable pub numbered_id : Text → ℕ → Text
numbered_id base n = if n == 0 then base else base ++ (txt "-" ++ decimal (n + 1))

unfoldable pub next_id : Unicode → Seen → Text → Text × Seen
next_id u seen text =
    let base = base_id u text in
    let n = count_of base seen in (numbered_id base n, set_count base (n + 1) seen)
