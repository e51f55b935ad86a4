-- ===== src/Markdown/Blocks/Stuck.antt =====
-- A line at which the main loop of renderMarkdown makes no progress: the round ends as it began.
use shadownet_agent.Common.{
  ℕ, ◌≡◌, refl, arith, Bool, true, false, ◌&&◌, none, List, [], ◌∷◌, ◌++◌, reverse, span,
  Option-cases, inl, inr,
}
use mathlib.Core.List.{reverse-append, reverse-cons}
use shadownet_agent.Common.Text.{
  Text, Unicode, txt, starts_with, trim, trim_start, trim_end, is_space,
}
use shadownet_agent.Markdown.Lines.{
  is_fence, is_blank, heading, is_heading_mark, hashes, quote_rest, bullet_rest, ordered_rest,
  is_some, is_rule, is_table_row, is_table_sep,
}
use shadownet_agent.Markdown.Href.{Page}
use shadownet_agent.Markdown.Blocks.Slug.{Seen}
use shadownet_agent.Markdown.Blocks.Progress.{is_stuck, hangs}
use shadownet_agent.Markdown.Blocks.{round, plain_round, para_round, is_para_line, next_line}

is_heading_mark-cons : (c : ℕ) (s : Text) → is_heading_mark (c ∷ s) ≡ true → c ≡ b'#'
unfolding is_heading_mark hashes
is_heading_mark-cons c s h = ground arith

not_mark-nil : is_heading_mark [] ≡ true → ⊥
unfolding is_heading_mark hashes
not_mark-nil h = cc

span-concat :
    (p : ℕ → Bool) (xs : Text) (c : ℕ)
    → p c ≡ false
    → (span p (xs ++ c ∷ [])).1 ≡ (span p xs).1 ++ c ∷ []
unfolding span
span-concat p [] c h = rw h
span-concat p (x ∷ xs) c h = ground (arith, span-concat p xs c)

trim-mark : (s : Text) → trim (b'#' ∷ s) ≡ b'#' ∷ reverse (span is_space (reverse s)).1
unfolding trim trim_end trim_start is_space span
trim-mark s =
    rw (reverse-cons, span-concat is_space (reverse s) b'#' refl)
      (reverse-append (span is_space (reverse s)).1 (b'#' ∷ []))

is_rule-mark : (s : Text) → is_rule (b'#' ∷ s) ≡ false
unfolding is_rule
is_rule-mark s = rw trim-mark (ground arith)

quote_rest-mark : (s : Text) → quote_rest (b'#' ∷ s) ≡ none
unfolding quote_rest
quote_rest-mark [] = refl
quote_rest-mark (c ∷ s) = refl

-- No branch but the last takes a line that begins with `#` and heads no table.
plain_round-mark :
    (u : Unicode) (page : Page) (seen : Seen) (s : Text) (more : List Text)
    → (is_table_row (b'#' ∷ s) && is_table_sep (next_line more)) ≡ false
    → plain_round u page seen (b'#' ∷ s) more ≡ para_round u page seen ((b'#' ∷ s) ∷ more)
unfolding plain_round is_blank bullet_rest ordered_rest
plain_round-mark u page seen s more h = rw (quote_rest-mark, is_rule-mark, h)

module _ (u : Unicode) (page : Page) (seen : Seen) (more : List Text) where
  para_round-stuck :
      (line : Text)
      → is_heading_mark line ≡ true
      → (para_round u page seen (line ∷ more)).rest ≡ line ∷ more
  unfolding para_round is_para_line span
  para_round-stuck line h = rw h (ground arith)

  hangs-parts :
      (line : Text)
      → hangs line more ≡ true
      → (is_heading_mark line ≡ true)
        × (is_some (heading line) ≡ false)
        × ((is_table_row line && is_table_sep (next_line more)) ≡ false)
  unfolding hangs is_stuck
  hangs-parts line h = ground arith

  is_fence-mark : (s : Text) → is_fence (b'#' ∷ s) ≡ false
  unfolding is_fence starts_with txt
  is_fence-mark s = refl

  round-mark :
      (s : Text)
      → hangs (b'#' ∷ s) more ≡ true
      → round u page seen (b'#' ∷ s) more ≡ para_round u page seen ((b'#' ∷ s) ∷ more)
  unfolding round
  round-mark s h =
      let (mark, bad, row) = hangs-parts (b'#' ∷ s) h in
      elim (Option-cases (heading (b'#' ∷ s))) [
        | inl e ↦ rw (is_fence-mark, e, round) (plain_round-mark u page seen s more row)
        | inr (found, e) ↦ ground arith
      ]

  -- A round at a line that hangs leaves the same lines and the same anchors.
  pub round-hangs :
      (line : Text)
      → hangs line more ≡ true
      → ((round u page seen line more).rest ≡ line ∷ more)
        × ((round u page seen line more).seen ≡ seen)
  unfolding para_round
  round-hangs [] h = absurd (not_mark-nil (hangs-parts [] h).0)
  round-hangs (c ∷ s) h =
      let (mark, _, _) = hangs-parts (c ∷ s) h in
      let e : c ≡ b'#' = is_heading_mark-cons c s mark in
      rw e (rw (round-mark s (rw e at h)) (para_round-stuck (b'#' ∷ s) (rw e at mark), refl))
