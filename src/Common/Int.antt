-- ===== src/Common/Int.antt =====
-- Signed numbers over the native naturals, as far as the dashboard needs them: coordinates in
-- millionths of a degree, and rates in millionths.
use shadownet_agent.Common.{ℕ, suc, ◌+◌, ◌-◌, ◌*◌, ◌/◌, Bool, leb, if◌then◌else◌, zero}

-- `negsuc n` is -(n + 1).
pub data ℤ : Type 0 where
  pos : ℕ → ℤ
  negsuc : ℕ → ℤ

abbrev pub pos_part : ℤ → ℕ
pos_part (pos n) = n
pos_part (negsuc n) = 0

abbrev pub neg_part : ℤ → ℕ
neg_part (pos n) = 0
neg_part (negsuc n) = suc n

-- -n
abbrev pub neg_ℕ : ℕ → ℤ
neg_ℕ zero = pos 0
neg_ℕ (suc n) = negsuc n

-- `a - b`
unfoldable pub sub_ℕ : ℕ → ℕ → ℤ
sub_ℕ a b = if leb b a then pos (a - b) else negsuc (b - a - 1)

-- `a <= b`
abbrev pub lebℤ : ℤ → ℤ → Bool
lebℤ a b = leb (pos_part a + neg_part b) (pos_part b + neg_part a)

-- `Math.min`, `Math.max`
unfoldable pub minℤ : ℤ → ℤ → ℤ
minℤ a b = if lebℤ a b then a else b

unfoldable pub maxℤ : ℤ → ℤ → ℤ
maxℤ a b = if lebℤ a b then b else a

-- `Math.round(v / step) * step` for a positive step. `Math.round` rounds a half up, so a negative
-- half towards zero.
unfoldable pub round_ℕ : ℕ → ℕ → ℕ
round_ℕ n step = (2 * n + step) / (2 * step) * step

unfoldable pub round_ℤ : ℤ → ℕ → ℤ
round_ℤ (pos n) step = pos (round_ℕ n step)
round_ℤ (negsuc n) step = neg_ℕ ((2 * suc n + step - 1) / (2 * step) * step)
