-- ===== src/Markdown/Blocks/Termination.antt =====
-- The main loop of renderMarkdown on fuel: when it ends, and when it runs for ever.
use shadownet_agent.Common.{
  ℕ, zero, suc, ◌<◌, ◌≡◌, refl, arith, true, false, Option, none, some, List, [], ◌∷◌, ◌++◌, inl,
  inr, ◌↔◌, length, replicate, All, Bool-cases,
}
use mathlib.Core.Option.{some-ne-none}
use shadownet_agent.Common.Text.{Text, txt, includes, lines_of, Unicode}
use shadownet_agent.Markdown.Href.{Page}
use shadownet_agent.Markdown.Lines.{
  is_heading_mark, heading, hashes, spaced_rest, dot_rest, starts_with_space, is_table_row,
}
use shadownet_agent.Markdown.Blocks.Slug.{Seen}
use shadownet_agent.Markdown.Blocks.Progress.{
  length-IsTail, All-IsTail, is_stuck, hangs, round-IsTail,
}
use shadownet_agent.Markdown.Blocks.Stuck.{round-hangs}
use shadownet_agent.Markdown.Blocks.{
  Block, TocItem, Round, round, render_from, prepend, render_markdown,
}

abbrev Result : Type 0
Result = List Block × List TocItem

prepend-some :
    (r : Round) {o : Option Result}
    → (v : Result) × (o ≡ some v)
    → (v : Result) × (prepend r o ≡ some v)
prepend-some r (v, e) = ((r.blocks ++ v.0, r.toc ++ v.1), rw e)

stuck-hangs : (line : Text) (more : List Text) → is_stuck line ≡ false → hangs line more ≡ false
unfolding hangs
stuck-hangs line more h = rw h

prepend-none : (r : Round) (o : Option Result) → prepend r o ≡ none → o ≡ none
prepend-none r none e = refl
prepend-none r (some v) e = absurd (some-ne-none _ e)

mark-hangs :
    (n : ℕ) (more : List Text) → n < 4 → hangs (replicate (suc n) b'#' ++ b' ' ∷ []) more ≡ true
unfolding hangs is_stuck is_heading_mark heading hashes is_table_row spaced_rest dot_rest
    starts_with_space includes txt
mark-hangs zero more h = refl
mark-hangs (suc zero) more h = refl
mark-hangs (suc (suc zero)) more h = refl
mark-hangs (suc (suc (suc zero))) more h = refl
mark-hangs (suc (suc (suc (suc n)))) more h = absurd (omega arith)

module _ (u : Unicode) (page : Page) where
  -- Fuel for one round more than there are lines is enough when no line is stuck.
  render_from_total :
      (f : ℕ) (seen : Seen) (lines : List Text)
      → length lines < f
      → All (λ l. is_stuck l ≡ false) lines
      → (v : Result) × (render_from u page f seen lines ≡ some v)
  unfolding render_from
  render_from_total zero seen lines h k = elim h [ ]
  render_from_total (suc f) seen [] h k = (([], []), refl)
  render_from_total (suc f) seen (line ∷ more) h (k, ks) =
      let t = round-IsTail u page seen line more (stuck-hangs line more k) in
      prepend-some (round u page seen line more)
        (render_from_total f _ _ (omega (arith, length-IsTail t)) (All-IsTail _ t ks))

  -- The positions from which the loop comes to a line that hangs.
  pub data Diverges : Seen → List Text → Type 0 where
    now :
        {seen : Seen} {line : Text} {more : List Text}
        → hangs line more ≡ true
        → Diverges seen (line ∷ more)
    later :
        {seen : Seen} {line : Text} {more : List Text}
        → Diverges (round u page seen line more).seen (round u page seen line more).rest
        → Diverges seen (line ∷ more)

  -- From such a position no fuel is enough.
  render_from-none :
      (f : ℕ) (seen : Seen) (lines : List Text)
      → Diverges seen lines
      → render_from u page f seen lines ≡ none
  unfolding render_from
  render_from-none zero seen lines d = refl
  render_from-none (suc f) seen [] d = elim d [ ]
  render_from-none (suc f) seen (line ∷ more) (now h) =
      let (same_rest, same_seen) = round-hangs u page seen more line h in
      rw (same_rest, same_seen) (rw (render_from-none f seen (line ∷ more) (now h)))
  render_from-none (suc f) seen (line ∷ more) (later d) = rw (render_from-none f _ _ d)

  -- With fuel above the number of lines, an answer fails to come only where the loop diverges.
  render_from-Diverges :
      (f : ℕ) (seen : Seen) (lines : List Text)
      → length lines < f
      → render_from u page f seen lines ≡ none
      → Diverges seen lines
  unfolding render_from
  render_from-Diverges zero seen lines h e = elim h [ ]
  render_from-Diverges (suc f) seen [] h e = absurd (some-ne-none _ e)
  render_from-Diverges (suc f) seen (line ∷ more) h e = elim (Bool-cases (hangs line more)) [
    | inl stays ↦ now stays
    | inr moves ↦
        let t = round-IsTail u page seen line more moves in
        later (
          render_from-Diverges f _ _ (omega (arith, length-IsTail t))
            (prepend-none (round u page seen line more) _ e))
  ]

-- renderMarkdown ends on every text in which each line that begins like a heading (one to four `#`
-- and white space) is a heading: one round more than there are lines is enough.
pub render_markdown_total :
    (u : Unicode) (page : Page) (md : Text)
    → All (λ l. is_stuck l ≡ false) (lines_of md)
    → (v : Result) × (render_markdown (suc (length (lines_of md))) u page md ≡ some v)
unfolding render_markdown
render_markdown_total u page md h =
    render_from_total u page (suc (length (lines_of md))) [] (lines_of md) (omega arith) h

-- Whether renderMarkdown ends on a text is decided by that many rounds: it gives no answer after
-- them exactly when the loop comes to a line that hangs, and then no number of rounds is enough.
pub render_markdown-none_iff :
    (u : Unicode) (page : Page) (md : Text)
    → (render_markdown (suc (length (lines_of md))) u page md ≡ none)
      ↔ ((f : ℕ) → render_markdown f u page md ≡ none)
unfolding render_markdown
render_markdown-none_iff u page md = (
  λ e f.
      render_from-none u page f [] (lines_of md)
        (render_from-Diverges u page (suc (length (lines_of md))) [] (lines_of md) (omega arith) e),
  λ all. all (suc (length (lines_of md))),
)

-- A line of one to four `#` and one space is no heading, and yet the paragraph loop refuses it: on
-- a text whose first line it is, renderMarkdown gives no answer after any number of rounds.
pub render_markdown-hangs :
    (u : Unicode) (page : Page) (n : ℕ) (md : Text) (more : List Text)
    → n < 4
    → lines_of md ≡ (replicate (suc n) b'#' ++ b' ' ∷ []) ∷ more
    → (f : ℕ) → render_markdown f u page md ≡ none
unfolding render_markdown
render_markdown-hangs u page n md more h e f =
    rw e (render_from-none u page f [] _ (now (mark-hangs n more h)))
