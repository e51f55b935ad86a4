-- ===== src/Markdown/Inline/Lossless.antt =====
-- The tokens of a line, written out again, are the line.
use shadownet_agent.Common.{
  ℕ, zero, suc, ◌≡◌, refl, sym, ap, ◌∙◌, subst, ◌-◌, arith, true, not, Option, none, some, List, [],
  ◌∷◌, ◌++◌, ◌==◌, length, length-append, drop, span, span-append, append_assoc, Bool-cases,
  Option-cases, inl, inr,
}
use shadownet_agent.Common.Text.{Text, txt, starts_with}
use shadownet_agent.Common.Text.Laws.{starts_with_sound, drop-append}
use shadownet_agent.Markdown.Inline.{
  Token, plain, code, strong, link, source, until, link_at, token_at, tokens_from, tokens, flush,
  with_token, link_target,
}

unfoldable pub written : List Token → Text
written [] = []
written (t ∷ ts) = source t ++ written ts

until_sound :
    (c : ℕ) (close s body rest : Text)
    → until c close s ≡ some (body, rest)
    → s ≡ body ++ (close ++ rest)
unfolding until
until_sound c close s body rest h = ground (
  arith,
  span-append (λ (d : ℕ). not (d == c)) s,
  starts_with_sound (span (λ (d : ℕ). not (d == c)) s).1 close,
)

marked_sound :
    (mk : Text → Token) (opening close : Text) (c : ℕ) (s : Text) (t : Token) (rest : Text)
    → ((b : Text) → source (mk b) ≡ opening ++ (b ++ close))
    → starts_with s opening ≡ true
    → with_token mk (until c close (drop (length opening) s)) ≡ some (t, rest)
    → s ≡ source t ++ rest
marked_sound mk opening close c s t rest shape begins h =
    elim (Option-cases (until c close (drop (length opening) s))) [
      | inl missing ↦ ground arith
      | inr ((body, after), found) ↦
          let is_mk : mk body ≡ t = ground arith in
          let is_rest : after ≡ rest = ground arith in
          starts_with_sound s opening begins
          ∙ ap (λ (u : Text). opening ++ u) (until_sound c close _ body after found)
          ∙ rw (← is_mk, shape, append_assoc, append_assoc, is_rest)
    ]

link_target_sound :
    (s label : Text) (t : Token) (rest : Text)
    → link_target label (until b')' (txt ")") s) ≡ some (t, rest)
    → txt "[" ++ (label ++ (txt "](" ++ s)) ≡ source t ++ rest
link_target_sound s label t rest h = elim (Option-cases (until b')' (txt ")") s)) [
  | inl missing ↦ ground arith
  | inr ((href, after), found) ↦
      let is_link : link label href ≡ t = ground arith in
      let is_rest : after ≡ rest = ground arith in
      rw (← is_link, ← is_rest)
        (ap (λ (u : Text). txt "[" ++ (label ++ (txt "](" ++ u)))
            (until_sound b')' (txt ")") s href after found)
          ∙ simp append_assoc)
]

link_at_sound :
    (s : Text) (t : Token) (rest : Text)
    → starts_with s (txt "[") ≡ true
    → link_at (until b']' (txt "](") (drop 1 s)) ≡ some (t, rest)
    → s ≡ source t ++ rest
unfolding link_at
link_at_sound s t rest begins h = elim (Option-cases (until b']' (txt "](") (drop 1 s))) [
  | inl missing ↦ ground arith
  | inr ((label, after), found) ↦
      starts_with_sound s (txt "[") begins
      ∙ ap (λ (u : Text). txt "[" ++ u) (until_sound b']' (txt "](") _ label after found)
      ∙ link_target_sound after label t rest (ground arith)
]

token_at_sound :
    (s : Text) (t : Token) (rest : Text) → token_at s ≡ some (t, rest) → s ≡ source t ++ rest
unfolding token_at
token_at_sound s t rest h = elim (Bool-cases (starts_with s (txt "`"))) [
  | inl e ↦ marked_sound code (txt "`") (txt "`") b'`' s t rest (λ b. refl) e (rw e at h)
  | inr e ↦ elim (Bool-cases (starts_with s (txt "**"))) [
    | inl f ↦ marked_sound strong (txt "**") (txt "**") b'*' s t rest (λ b. refl) f (rw (e, f) at h)
    | inr f ↦ elim (Bool-cases (starts_with s (txt "["))) [
      | inl g ↦ link_at_sound s t rest g (rw (e, f, g) at h)
      | inr g ↦ ground arith
    ]
  ]
]

written-flush : (cur : Text) (ts : List Token) → written (flush cur ts) ≡ cur ++ written ts
unfolding written
written-flush [] ts = refl
written-flush (c ∷ cur) ts = refl

abbrev IsMark : Token → Type 0
IsMark (plain t) = ⊥
IsMark _ = Unit

with_token-IsMark :
    (mk : Text → Token) (o : Option (Text × Text)) (t : Token) (rest : Text)
    → ((b : Text) → IsMark (mk b))
    → with_token mk o ≡ some (t, rest)
    → IsMark t
with_token-IsMark mk none t rest m h = ground arith
with_token-IsMark mk (some (b, r)) t rest m h =
    let e : mk b ≡ t = ground arith in subst IsMark e (m b)

link_target-IsMark :
    (label : Text) (o : Option (Text × Text)) (t : Token) (rest : Text)
    → link_target label o ≡ some (t, rest)
    → IsMark t
link_target-IsMark label none t rest h = ground arith
link_target-IsMark label (some (b, r)) t rest h =
    let e : link label b ≡ t = ground arith in subst IsMark e tt

link_at-IsMark :
    (o : Option (Text × Text)) (t : Token) (rest : Text) → link_at o ≡ some (t, rest) → IsMark t
unfolding link_at
link_at-IsMark none t rest h = ground arith
link_at-IsMark (some (label, r)) t rest h = link_target-IsMark label _ t rest h

token_at-IsMark : (s : Text) (t : Token) (rest : Text) → token_at s ≡ some (t, rest) → IsMark t
unfolding token_at
token_at-IsMark s t rest h = elim (Bool-cases (starts_with s (txt "`"))) [
  | inl e ↦ with_token-IsMark code _ t rest (λ b. tt) (rw e at h)
  | inr e ↦ elim (Bool-cases (starts_with s (txt "**"))) [
    | inl f ↦ with_token-IsMark strong _ t rest (λ b. tt) (rw (e, f) at h)
    | inr f ↦ elim (Bool-cases (starts_with s (txt "["))) [
      | inl g ↦ link_at-IsMark (until b']' (txt "](") (drop 1 s)) t rest (rw (e, f, g) at h)
      | inr g ↦ ground arith
    ]
  ]
]

source_cons : (t : Token) → IsMark t → (d : ℕ) × (ds : Text) × (source t ≡ d ∷ ds)
unfolding txt
source_cons (plain b) m = elim m [ ]
source_cons (code b) m = (_, _, refl)
source_cons (strong b) m = (_, _, refl)
source_cons (link label href) m = (_, _, refl)

drop-suffix : (s p r : Text) → s ≡ p ++ r → drop (length s - length r) s ≡ r
drop-suffix s p r e =
    let n : length s - length r ≡ length p = omega (arith, ap length e, length-append {0} p r) in
    rw n (rw e (drop-append p r))

-- A match is not empty, so the text after it is a tail of what follows its first unit.
drop-rest :
    (c : ℕ) (s : Text) (t : Token) (rest : Text)
    → token_at (c ∷ s) ≡ some (t, rest)
    → drop (length s - length rest) s ≡ rest
drop-rest c s t rest h =
    let (d, ds, shape) = source_cons t (token_at-IsMark (c ∷ s) t rest h) in
    let whole : c ∷ s ≡ d ∷ (ds ++ rest) = token_at_sound (c ∷ s) t rest h ∙ rw shape in
    drop-suffix s ds rest (cc)

tokens_from-hit :
    (cur : Text) (c : ℕ) (s : Text) (t : Token) (rest : Text)
    → token_at (c ∷ s) ≡ some (t, rest)
    → tokens_from cur 0 (c ∷ s) ≡ flush cur (t ∷ tokens_from [] (length s - length rest) s)
unfolding tokens_from
tokens_from-hit cur c s t rest e = rw (e, tokens_from)

tokens_from-miss :
    (cur : Text) (c : ℕ) (s : Text)
    → token_at (c ∷ s) ≡ none
    → tokens_from cur 0 (c ∷ s) ≡ tokens_from (cur ++ c ∷ []) 0 s
unfolding tokens_from
tokens_from-miss cur c s e = rw (e, tokens_from)

tokens_from_lossless :
    (cur : Text) (skip : ℕ) (s : Text) → written (tokens_from cur skip s) ≡ cur ++ drop skip s
unfolding tokens_from written
tokens_from_lossless cur zero [] = written-flush cur []
tokens_from_lossless cur (suc n) [] = written-flush cur []
tokens_from_lossless cur (suc n) (c ∷ s) = tokens_from_lossless cur n s
tokens_from_lossless cur zero (c ∷ s) = elim (Option-cases (token_at (c ∷ s))) [
  | inl e ↦
      ap written (tokens_from-miss cur c s e)
      ∙ tokens_from_lossless (cur ++ c ∷ []) 0 s
      ∙ append_assoc cur (c ∷ []) s
  | inr ((t, rest), e) ↦
      ap written (tokens_from-hit cur c s t rest e)
      ∙ written-flush cur (t ∷ tokens_from [] (length s - length rest) s)
      ∙ ap (λ (u : Text). cur ++ u)
          (ap (λ (u : Text). source t ++ u)
              (tokens_from_lossless [] (length s - length rest) s ∙ drop-rest c s t rest e)
            ∙ sym (token_at_sound (c ∷ s) t rest e))
]

-- The tokens that splitInline finds in a line, each with its marks, make up the line again: no
-- character is lost, doubled or moved.
pub written-tokens : (text : Text) → written (tokens text) ≡ text
unfolding tokens
written-tokens text = tokens_from_lossless [] 0 text
