-- ===== src/Markdown/Blocks/Progress.antt =====
-- Does the main loop of renderMarkdown end? A round leaves a proper tail of the lines, except at a
-- line that the paragraph loop refuses though no other branch took it.
use shadownet_agent.Common.{
  ℕ, ◌≤◌, ◌≡◌, arith, Bool, true, false, not, ◌&&◌, Option, none, List, [], ◌∷◌, length, drop, span,
  All, Bool-cases, Option-cases, inl, inr,
}
use shadownet_agent.Common.Text.{Text, Unicode}
use shadownet_agent.Markdown.Lines.{
  is_fence, is_blank, heading, is_heading_mark, quote_rest, bullet_rest, ordered_rest, is_some,
  is_rule, is_table_row, is_table_sep,
}
use shadownet_agent.Markdown.Inline.{Token}
use shadownet_agent.Markdown.Href.{Page}
use shadownet_agent.Markdown.Blocks.Slug.{Seen}
use shadownet_agent.Markdown.Blocks.{
  Block, quote, bullets, numbered, round, code_round, heading_round, marked_round, table_round,
  para_round, plain_round, is_para_line, take_marked, next_line,
}

-- The lines `r` end the list.
pub data IsTail (r : List Text) : List Text → Type 0 where
  here : IsTail r r
  there : {l : Text} {ls : List Text} → IsTail r ls → IsTail r (l ∷ ls)

pub length-IsTail : {r ls : List Text} → IsTail r ls → length r ≤ length ls
length-IsTail here = omega arith
length-IsTail (there t) = omega (arith, length-IsTail t)

IsTail-trans : {r s ls : List Text} → IsTail r s → IsTail s ls → IsTail r ls
IsTail-trans t here = t
IsTail-trans t (there u) = there (IsTail-trans t u)

pub All-IsTail : (P : Text → Type 0) {r ls : List Text} → IsTail r ls → All P ls → All P r
All-IsTail P here h = h
All-IsTail P (there t) (_, h) = All-IsTail P t h

drop-IsTail : (ls : List Text) → IsTail (drop 1 ls) ls
drop-IsTail [] = here
drop-IsTail (l ∷ ls) = there here

span-IsTail : (p : Text → Bool) (ls : List Text) → IsTail (span p ls).1 ls
unfolding span
span-IsTail p [] = here
span-IsTail p (l ∷ ls) = elim (Bool-cases (p l)) [
  | inl e ↦ rw e (there (span-IsTail p ls))
  | inr e ↦ rw e here
]

take_marked-IsTail :
    (mark : Text → Option Text) (ls : List Text) → IsTail (take_marked mark ls).1 ls
unfolding take_marked
take_marked-IsTail mark [] = here
take_marked-IsTail mark (l ∷ ls) = elim (Option-cases (mark l)) [
  | inl e ↦ rw (e, take_marked) here
  | inr (t, e) ↦ rw (e, take_marked) (there (take_marked-IsTail mark ls))
]

-- The line is refused by the paragraph loop, and no other branch of the main loop takes it.
unfoldable pub is_stuck : Text → Bool
is_stuck line = is_heading_mark line && not (is_some (heading line))

unfoldable pub hangs : Text → List Text → Bool
hangs line more = is_stuck line && not (is_table_row line && is_table_sep (next_line more))

is_para_line-hangs :
    (line : Text) (more : List Text)
    → heading line ≡ none
    → is_fence line ≡ false
    → hangs line more ≡ false
    → is_table_row line && is_table_sep (next_line more) ≡ false
    → is_blank line ≡ false
    → is_some (quote_rest line) ≡ false
    → is_some (bullet_rest line) ≡ false
    → is_some (ordered_rest line) ≡ false
    → is_para_line line ≡ true
unfolding is_para_line hangs is_stuck
is_para_line-hangs line more h f k t a b c d = rw (a, f, b, c, d) (ground arith)

module _ (u : Unicode) (page : Page) (seen : Seen) where
  marked_round-IsTail :
      (mk : List (List Token) → Block) (mark : Text → Option Text) (line : Text) (more : List Text)
      → is_some (mark line) ≡ true
      → IsTail (marked_round u page mk mark seen (line ∷ more)).rest more
  unfolding marked_round take_marked
  marked_round-IsTail mk mark line more h = elim (Option-cases (mark line)) [
    | inl e ↦ ground arith
    | inr (t, e) ↦ rw (e, take_marked) (take_marked-IsTail mark more)
  ]

  code_round-IsTail :
      (line : Text) (more : List Text) → IsTail (code_round u page seen line more).rest more
  unfolding code_round
  code_round-IsTail line more = IsTail-trans (drop-IsTail _) (span-IsTail _ more)

  heading_round-IsTail :
      (n : ℕ) (body : Text) (more : List Text)
      → IsTail (heading_round u page seen n body more).rest more
  unfolding heading_round
  heading_round-IsTail n body more = here

  para_round-IsTail :
      (line : Text) (more : List Text)
      → is_para_line line ≡ true
      → IsTail (para_round u page seen (line ∷ more)).rest more
  unfolding para_round span
  para_round-IsTail line more h = rw h (span-IsTail is_para_line more)

  table_round-IsTail :
      (line sep : Text) (more : List Text)
      → IsTail (table_round u page seen line sep (drop 1 more)).rest more
  unfolding table_round
  table_round-IsTail line sep more = IsTail-trans (span-IsTail _ (drop 1 more)) (drop-IsTail more)

  -- The tests of plain_round in order; only the last branch can leave all lines.
  plain_round-IsTail :
      (line : Text) (more : List Text)
      → (is_table_row line && is_table_sep (next_line more) ≡ false
          → is_blank line ≡ false
          → is_some (quote_rest line) ≡ false
          → is_some (bullet_rest line) ≡ false
          → is_some (ordered_rest line) ≡ false
          → is_para_line line ≡ true)
      → IsTail (plain_round u page seen line more).rest more
  unfolding plain_round
  plain_round-IsTail line more last = elim (Bool-cases (is_blank line)) [
    | inl a ↦ rw a here
    | inr a ↦ elim (Bool-cases (is_some (quote_rest line))) [
      | inl b ↦ rw (a, b) (marked_round-IsTail quote quote_rest line more b)
      | inr b ↦ elim (Bool-cases (is_some (bullet_rest line))) [
        | inl c ↦ rw (a, b, c) (marked_round-IsTail bullets bullet_rest line more c)
        | inr c ↦ elim (Bool-cases (is_some (ordered_rest line))) [
          | inl d ↦ rw (a, b, c, d) (marked_round-IsTail numbered ordered_rest line more d)
          | inr d ↦ elim (Bool-cases (is_rule line)) [
            | inl e ↦ rw (a, b, c, d, e) here
            | inr e ↦ elim (Bool-cases (is_table_row line && is_table_sep (next_line more))) [
              | inl f ↦ rw (a, b, c, d, e, f) (table_round-IsTail line (next_line more) more)
              | inr f ↦ rw (a, b, c, d, e, f) (para_round-IsTail line more (last f a b c d))
            ]
          ]
        ]
      ]
    ]
  ]

  -- A round leaves a tail of the lines after the current one, unless it hangs.
  pub round-IsTail :
      (line : Text) (more : List Text)
      → hangs line more ≡ false
      → IsTail (round u page seen line more).rest more
  unfolding round
  round-IsTail line more k = elim (Bool-cases (is_fence line)) [
    | inl e ↦ rw e (code_round-IsTail line more)
    | inr e ↦ elim (Option-cases (heading line)) [
      | inl h ↦ rw (e, h, round) (plain_round-IsTail line more (is_para_line-hangs line more h e k))
      | inr ((n, body), h) ↦ rw (e, h, round) (heading_round-IsTail n body more)
    ]
  ]
