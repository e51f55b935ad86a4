-- ===== src/Markdown/Blocks/Ids.antt =====
-- The anchors that nextId gives to the headings of a page.
use shadownet_agent.Common.{
  ℕ, zero, suc, ◌+◌, ◌≡◌, ◌≢◌, refl, sym, ap, ◌∙◌, arith, false, List, [], ◌∷◌, ◌++◌, if◌then◌else◌,
  length, length-append, Bool-cases, inl, inr,
}
use mathlib.Core.List.{append_cancel_left}
use shadownet_agent.Common.Text.{Text, txt, same, decimal, decimal_fuel, Unicode}
use shadownet_agent.Common.Text.Laws.{same_iff, same_refl, same_sound, decimal_inj}
use shadownet_agent.Markdown.Blocks.Slug.{Seen, count_of, set_count, base_id, numbered_id, next_id}

-- The ids of headings with these texts, in order, as the loop calls nextId.
pub ids : Unicode → Seen → List Text → List Text
ids u seen [] = []
ids u seen (t ∷ ts) = let (id, seen') = next_id u seen t in id ∷ ids u seen' ts

-- How often a base occurs among those of the headings before.
unfoldable pub occurrences : Text → List Text → ℕ
occurrences b [] = 0
occurrences b (c ∷ cs) = let n = occurrences b cs in if same c b then suc n else n

-- A heading's base, numbered by the earlier headings with that base.
pub numbered_by_count : Unicode → List Text → List Text → List Text
numbered_by_count u earlier [] = []
numbered_by_count u earlier (t ∷ ts) =
    let base = base_id u t in
    numbered_id base (occurrences base earlier) ∷ numbered_by_count u (base ∷ earlier) ts

count_of-set_count :
    (key j : Text) (n : ℕ) (seen : Seen)
    → count_of j (set_count key n seen) ≡ (if same key j then n else count_of j seen)
unfolding count_of set_count
count_of-set_count key j n [] = refl
count_of-set_count key j n ((k, m) ∷ seen) =
    ground (arith, same_iff k key, same_iff k j, same_iff key j, count_of-set_count key j n seen)

-- The map holds the number of occurrences of each base.
abbrev Counts : Seen → List Text → Type 0
Counts seen earlier = (b : Text) → count_of b seen ≡ occurrences b earlier

Counts-set_count :
    (base : Text) (seen : Seen) (earlier : List Text)
    → Counts seen earlier
    → (n : ℕ) → n ≡ occurrences base earlier
    → Counts (set_count base (n + 1) seen) (base ∷ earlier)
unfolding occurrences
Counts-set_count base seen earlier h n e b =
    count_of-set_count base b (n + 1) seen ∙ ground (arith, h b, same_iff base b)

ids-Counts :
    (u : Unicode) (seen : Seen) (earlier ts : List Text)
    → Counts seen earlier
    → ids u seen ts ≡ numbered_by_count u earlier ts
unfolding ids numbered_by_count next_id
ids-Counts u seen earlier [] h = refl
ids-Counts u seen earlier (t ∷ ts) h =
    let base = base_id u t in
    rw (h base) (
      ap (λ (r : List Text). numbered_id base (occurrences base earlier) ∷ r)
        (ids-Counts u (set_count base (occurrences base earlier + 1) seen) (base ∷ earlier) ts
          (Counts-set_count base seen earlier h (occurrences base earlier) (refl))))

pub ids-numbered_by_count : (u : Unicode) (ts : List Text) → ids u [] ts ≡ numbered_by_count u [] ts
unfolding occurrences count_of
ids-numbered_by_count u ts = ids-Counts u [] [] ts (λ b. refl)

longer : (base digits : Text) → base ≢ base ++ (txt "-" ++ digits)
unfolding numbered_id txt
longer base digits e = omega (arith, ap length e, length-append {0} base (txt "-" ++ digits))

numbered_id-suc :
    (base : Text) (n : ℕ) → numbered_id base (suc n) ≡ base ++ (txt "-" ++ decimal (suc n + 1))
unfolding numbered_id
numbered_id-suc base n = ground arith

-- The ids of two headings with one base are equal only if as many such headings stand before each.
pub numbered_id_inj : (base : Text) (n m : ℕ) → numbered_id base n ≡ numbered_id base m → n ≡ m
unfolding numbered_id
numbered_id_inj base zero zero h = refl
numbered_id_inj base zero (suc m) h =
    absurd (longer base (decimal (suc m + 1)) (h ∙ numbered_id-suc base m))
numbered_id_inj base (suc n) zero h =
    absurd (longer base (decimal (suc n + 1)) (sym h ∙ numbered_id-suc base n))
numbered_id_inj base (suc n) (suc m) h =
    let digits : txt "-" ++ decimal (suc n + 1) ≡ txt "-" ++ decimal (suc m + 1) =
      append_cancel_left base _ _ (sym (numbered_id-suc base n) ∙ h ∙ numbered_id-suc base m) in
    omega (arith, decimal_inj (suc n + 1) (suc m + 1) (append_cancel_left (txt "-") _ _ digits))

same-longer : (base : Text) → same base (base ++ txt "-2") ≡ false
unfolding txt
same-longer base = elim (Bool-cases (same base (base ++ txt "-2"))) [
  | inl e ↦ absurd (longer base (txt "2") (same_sound base (base ++ txt "-2") e))
  | inr e ↦ e
]

-- A heading whose own slug ends in `-2` gets the id that the second of two headings with the rest
-- of that slug has: the ids of a page need not differ.
pub ids_collide :
    (u : Unicode) (a b : Text)
    → base_id u b ≡ base_id u a ++ txt "-2"
    → ids u [] (a ∷ a ∷ b ∷ [])
      ≡ base_id u a ∷ (base_id u a ++ txt "-2") ∷ (base_id u a ++ txt "-2") ∷ []
unfolding numbered_by_count occurrences numbered_id decimal decimal_fuel txt
ids_collide u a b e = ids-numbered_by_count u (a ∷ a ∷ b ∷ []) ∙ rw (same_refl, e, same-longer) refl
