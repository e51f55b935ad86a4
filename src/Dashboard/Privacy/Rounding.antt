-- ===== src/Dashboard/Privacy/Rounding.antt =====
-- The rounding of times, counts and coordinates: how far a value moves, and that a rounded value
-- stays where it is.
use shadownet_agent.Common.{
  ℕ, zero, suc, ◌+◌, ◌-◌, ◌*◌, ◌/◌, ◌≤◌, ◌<◌, ◌≡◌, refl, ap, ap₂, arith, leb, leb→le, leb→gt, max,
  Bool-cases, inl, inr,
}
use shadownet_agent.Common.Int.{
  ℤ, pos, negsuc, pos_part, neg_part, neg_ℕ, round_ℕ, round_ℤ, minℤ, maxℤ,
}
use native.Mathlib.Nat.{mul-div_cancel}
use shadownet_agent.Dashboard.Types.{Coords}
use shadownet_agent.Dashboard.Privacy.{
  bucket_unix, round_to, quantize_coord, quantize_pair, half_degree, one,
}

-- A time is moved back to the start of its bucket, by less than the bucket's length.
pub bucket_unix_bounds :
    (unix b : ℕ) → 1 < b → (bucket_unix unix b ≤ unix) × (unix < bucket_unix unix b + b)
unfolding bucket_unix
bucket_unix_bounds unix b h = grind arith

pub bucket_unix_idem : (unix b : ℕ) → bucket_unix (bucket_unix unix b) b ≡ bucket_unix unix b
unfolding bucket_unix
bucket_unix_idem unix b = elim (Bool-cases (leb b 1)) [
  | inl e ↦ rw e
  | inr e ↦ rw e (ap (λ (q : ℕ). q * b) (mul-div_cancel (unix / b) (omega (arith, leb→gt b 1 e))))
]

-- A count is moved to the nearest multiple of its step, a half up.
pub round_to_bounds :
    (n s : ℕ) → 1 < s → (2 * n ≤ 2 * round_to n s + s) × (2 * round_to n s ≤ 2 * n + s)
unfolding round_to round_ℕ
round_to_bounds n s h = elim (Bool-cases (leb s 1)) [
  | inl e ↦ absurd (omega (arith, leb→le s 1 e))
  | inr e ↦ rw e (grind arith)
]

pub round_to_idem_5 : (n : ℕ) → round_to (round_to n 5) 5 ≡ round_to n 5
unfolding round_to round_ℕ
round_to_idem_5 n = omega arith

pub round_to_idem_50 : (n : ℕ) → round_to (round_to n 50) 50 ≡ round_to n 50
unfolding round_to round_ℕ
round_to_idem_50 n = omega arith

-- The count shown of a region keeps its value when it is rounded and bounded again.
pub shown_count_idem :
    (t n : ℕ) → t ≤ n → max t (round_to (max t (round_to n 25)) 25) ≡ max t (round_to n 25)
unfolding round_to round_ℕ
shown_count_idem t n h = omega arith

neg_ℕ_parts : (m : ℕ) → (neg_part (neg_ℕ m) ≡ m) × (pos_part (neg_ℕ m) ≡ 0)
neg_ℕ_parts zero = (refl, refl)
neg_ℕ_parts (suc m) = (refl, refl)

-- A coordinate moves by at most a quarter of a degree, either way.
pub quantize_coord_bounds :
    (v : ℤ)
    → (pos_part v + neg_part (quantize_coord v half_degree)
        ≤ pos_part (quantize_coord v half_degree) + neg_part v + 250_000)
      × (pos_part (quantize_coord v half_degree) + neg_part v
          ≤ pos_part v + neg_part (quantize_coord v half_degree) + 250_000)
unfolding quantize_coord round_ℤ round_ℕ
quantize_coord_bounds (pos n) = omega arith
quantize_coord_bounds (negsuc n) =
    omega (arith, neg_ℕ_parts ((2 * suc n + half_degree - 1) / 1000000 * half_degree))

round_ℤ-neg_ℕ : (m q : ℕ) → m ≡ q * half_degree → round_ℤ (neg_ℕ m) half_degree ≡ neg_ℕ m
unfolding round_ℤ round_ℕ
round_ℤ-neg_ℕ zero q e = refl
round_ℤ-neg_ℕ (suc m) q e = ap neg_ℕ {y = suc m} (omega arith)

pub quantize_coord_idem :
    (v : ℤ)
    → quantize_coord (quantize_coord v half_degree) half_degree ≡ quantize_coord v half_degree
unfolding quantize_coord round_ℤ round_ℕ
quantize_coord_idem (pos n) = ap pos (omega arith)
quantize_coord_idem (negsuc n) = round_ℤ-neg_ℕ _ ((2 * suc n + half_degree - 1) / 1000000) refl

pub quantize_pair_idem :
    (p : Coords)
    → quantize_pair (quantize_pair p half_degree) half_degree ≡ quantize_pair p half_degree
unfolding quantize_pair
quantize_pair_idem (x, y) =
    ap₂ (λ (a b : ℤ). (a, b)) (quantize_coord_idem x) (quantize_coord_idem y)

pub clamp_idem :
    (v : ℤ) → minℤ one (maxℤ (pos 0) (minℤ one (maxℤ (pos 0) v))) ≡ minℤ one (maxℤ (pos 0) v)
unfolding minℤ maxℤ
clamp_idem v = ground arith
