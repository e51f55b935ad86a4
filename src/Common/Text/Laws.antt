-- ===== src/Common/Text/Laws.antt =====
-- Laws of the string methods.
use Prim.Native.Nat.{ℕ, zero, suc, ◌+◌, ◌-◌, ◌*◌, ◌/◌, ◌%◌, ◌<◌}
use mathlib.Core.Path.{◌≡◌, refl, sym, ap, ◌∙◌}
use mathlib.Core.Logic.{◌↔◌, ◌≢◌, inl, inr}
use mathlib.Core.Bool.{true, false}
use mathlib.Core.Option.{some}
use mathlib.Core.List.{List, [], ◌∷◌, ◌++◌, append-nil, append_assoc}
use native.Mathlib.Omega.{arith}
use shadownet_agent.Common.Lists.{length, length-append, drop, All, All-append}
use shadownet_agent.Common.Tests.{leb, leb→gt, ◌==◌, Bool-cases, Option-cases}
use shadownet_agent.Common.Text.{
  Text, same, starts_with, strip_suffix?, ends_with, split, split_from, join, decimal, decimal_fuel,
  value_from,
}

pub same_refl : (s : Text) → same s s ≡ true
unfolding same
same_refl [] = refl
same_refl (c ∷ s) = ground (arith, same_refl s)

pub same_sound : (s t : Text) → same s t ≡ true → s ≡ t
unfolding same
same_sound [] [] h = refl
same_sound [] (_ ∷ _) h = cc
same_sound (_ ∷ _) [] h = cc
same_sound (a ∷ s) (b ∷ t) h = ground (arith, same_sound s t)

pub same_iff : (s t : Text) → (same s t ≡ true) ↔ (s ≡ t)
same_iff s t = (same_sound s t, λ e. rw e (same_refl t))

pub starts_with-append : (p s : Text) → starts_with (p ++ s) p ≡ true
unfolding starts_with
starts_with-append [] [] = refl
starts_with-append [] (_ ∷ _) = refl
starts_with-append (c ∷ p) s = ground (arith, starts_with-append p s)

pub drop-append : (p s : Text) → drop (length p) (p ++ s) ≡ s
drop-append [] s = refl
drop-append (c ∷ p) s = drop-append p s

pub starts_with_sound : (s p : Text) → starts_with s p ≡ true → s ≡ p ++ drop (length p) s
unfolding starts_with
starts_with_sound [] [] h = refl
starts_with_sound (_ ∷ _) [] h = refl
starts_with_sound [] (_ ∷ _) h = cc
starts_with_sound (c ∷ s) (p ∷ ps) h = ground (arith, starts_with_sound s ps)

same-ne : (c : ℕ) (s p : Text) → same (c ∷ (s ++ p)) p ≡ false
same-ne c s p = elim (Bool-cases (same (c ∷ (s ++ p)) p)) [
  | inl e ↦ absurd (omega (arith, ap length (same_sound (c ∷ (s ++ p)) p e), length-append {0} s p))
  | inr e ↦ e
]

pub strip_suffix?-append : (p s : Text) → strip_suffix? p (s ++ p) ≡ some s
unfolding strip_suffix?
strip_suffix?-append [] [] = refl
strip_suffix?-append (c ∷ p) [] = rw (same_refl (c ∷ p))
strip_suffix?-append p (c ∷ s) = ground (arith, same-ne c s p, strip_suffix?-append p s)

pub strip_suffix?_sound : (p s t : Text) → strip_suffix? p s ≡ some t → s ≡ t ++ p
unfolding strip_suffix?
strip_suffix?_sound p [] t h = ground (arith, same_sound [] p)
strip_suffix?_sound p (c ∷ s) t h = elim (Bool-cases (same (c ∷ s) p)) [
  | inl e ↦ ground (arith, same_sound (c ∷ s) p)
  | inr e ↦ elim (Option-cases (strip_suffix? p s)) [
    | inl missing ↦ ground arith
    | inr (u, found) ↦ ground (arith, strip_suffix?_sound p s u found)
  ]
]

pub ends_with_iff : (s p : Text) → (ends_with s p ≡ true) ↔ ((t : Text) × (s ≡ t ++ p))
unfolding ends_with
ends_with_iff s p = (to, λ (t, e). rw (e, ends_with, strip_suffix?-append p t))
  where
    to : ends_with s p ≡ true → (t : Text) × (s ≡ t ++ p)
    to h = elim (Option-cases (strip_suffix? p s)) [
      | inl missing ↦ ground arith
      | inr (t, found) ↦ (t, strip_suffix?_sound p s t found)
    ]

-- A text without the separator.
abbrev pub Lacks : ℕ → Text → Type 0
Lacks sep = All (λ c. c ≢ sep)

split_from-Lacks : (sep : ℕ) (cur s : Text) → Lacks sep cur → All (Lacks sep) (split_from sep cur s)
unfolding split_from
split_from-Lacks sep cur [] h = (h, tt)
split_from-Lacks sep cur (c ∷ s) h = ground (
  arith,
  split_from-Lacks sep [] s tt,
  split_from-Lacks sep (cur ++ c ∷ []) s,
  λ (e : c ≢ sep). All-append (λ (d : ℕ). d ≢ sep) cur (c ∷ []) h (e, tt),
)

split_from-cons :
    (sep : ℕ) (cur s : Text) → (p : Text) × (ps : List Text) × (split_from sep cur s ≡ p ∷ ps)
unfolding split_from
split_from-cons sep cur [] = (cur, [], refl)
split_from-cons sep cur (c ∷ s) = elim (Bool-cases (c == sep)) [
  | inl e ↦ (cur, split_from sep [] s, rw e)
  | inr e ↦ rw e (split_from-cons sep (cur ++ c ∷ []) s)
]

pub join-cons :
    (sep p : Text) {ps : List Text} {q : Text} {qs : List Text}
    → ps ≡ q ∷ qs
    → join sep (p ∷ ps) ≡ p ++ (sep ++ join sep ps)
unfolding join
join-cons sep p e = rw e

join-split_from : (sep : ℕ) (cur s : Text) → join (sep ∷ []) (split_from sep cur s) ≡ cur ++ s
unfolding split_from join
join-split_from sep cur [] = sym (append-nil cur)
join-split_from sep cur (c ∷ s) = elim (Bool-cases (c == sep)) [
  | inl e ↦
      let same_unit : c ≡ sep = ground arith in
      rw e (
        join-cons (sep ∷ []) cur (split_from-cons sep [] s).2
        ∙ ap (λ (t : Text). cur ++ (sep ∷ t)) (join-split_from sep [] s)
        ∙ rw same_unit)
  | inr e ↦ rw e (join-split_from sep (cur ++ c ∷ []) s ∙ append_assoc cur (c ∷ []) s)
]

-- The parts of `s.split(sep)` do not hold the separator, and joining them gives the text back.
pub split-Lacks : (sep : ℕ) (s : Text) → All (Lacks sep) (split sep s)
unfolding split
split-Lacks sep s = split_from-Lacks sep [] s tt

pub join-split : (sep : ℕ) (s : Text) → join (sep ∷ []) (split sep s) ≡ s
unfolding split
join-split sep s = join-split_from sep [] s

value-append : (s t : Text) (acc : ℕ) → value_from (s ++ t) acc ≡ value_from t (value_from s acc)
unfolding value_from
value-append [] t acc = refl
value-append (d ∷ s) t acc = value-append s t (acc * 10 + (d - b'0'))

decimal_fuel-large :
    (f n : ℕ)
    → leb n 9 ≡ false
    → decimal_fuel (suc f) n ≡ decimal_fuel f (n / 10) ++ (b'0' + n % 10) ∷ []
unfolding decimal_fuel
decimal_fuel-large f n h = rw (h, decimal_fuel)

decimal_fuel-small : (f n : ℕ) → leb n 9 ≡ true → decimal_fuel (suc f) n ≡ (b'0' + n) ∷ []
unfolding decimal_fuel
decimal_fuel-small f n h = rw (h, decimal_fuel)

value-decimal_fuel : (f n : ℕ) → n < f → value_from (decimal_fuel f n) 0 ≡ n
unfolding value_from
value-decimal_fuel zero n h = elim h [ ]
value-decimal_fuel (suc f) n h = elim (Bool-cases (leb n 9)) [
  | inl small ↦ rw (decimal_fuel-small f n small) (omega arith)
  | inr large ↦
      let fits : n / 10 < f = omega (arith, leb→gt n 9 large) in
      rw (decimal_fuel-large f n large) (
        value-append (decimal_fuel f (n / 10)) _ 0
        ∙ rw (value-decimal_fuel f (n / 10) fits) (omega arith))
]

-- Two numbers that are printed alike are equal.
pub decimal_inj : (n m : ℕ) → decimal n ≡ decimal m → n ≡ m
unfolding decimal
decimal_inj n m e =
    sym (value-decimal_fuel (suc n) n (omega arith))
    ∙ ap (λ (t : Text). value_from t 0) e
    ∙ value-decimal_fuel (suc m) m (omega arith)
