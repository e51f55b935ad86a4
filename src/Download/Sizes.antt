-- ===== src/Download/Sizes.antt =====
-- formatBytes of website/src/components/DownloadSection.tsx. Division by 1024 is exact on doubles,
-- and `toFixed(1)` rounds the exact value to tenths, a half upwards.
use shadownet_agent.Common.{
  ℕ, zero, suc, ◌+◌, ◌*◌, ◌/◌, ◌%◌, ◌≤◌, ◌<◌, ◌^◌, ◌≡◌, refl, ◌⊎◌, inl, inr, arith, ◌++◌, leb,
  if◌then◌else◌, Bool-cases, leb→le, leb→gt,
}
use shadownet_agent.Common.Text.{Text, txt, decimal}

abbrev pub unit_name : ℕ → Text
unit_name zero = txt "B"
unit_name (suc zero) = txt "KB"
unit_name (suc (suc zero)) = txt "MB"
unit_name _ = txt "GB"

-- The loop: the index of the unit, for `left` more units and `v = n / 1024 ^ i`.
unfoldable pub unit_from : ℕ → ℕ → ℕ → ℕ
unit_from zero i n = i
unit_from (suc left) i n =
    let next = unit_from left (suc i) n in if leb (1024 ^ suc i) n then next else i

abbrev pub unit_index : ℕ → ℕ
unit_index n = unit_from 3 0 n

-- `v.toFixed(1)` in tenths.
unfoldable pub tenths : ℕ → ℕ → ℕ
tenths n i = (20 * n + 1024 ^ i) / (2 * 1024 ^ i)

unfoldable pub format_bytes : ℕ → Text
unfolding unit_from
format_bytes n =
    let i = unit_index n in
    let t = tenths n i in
    (if leb i 0 then decimal n else decimal (t / 10) ++ (txt "." ++ decimal (t % 10)))
    ++ (txt " " ++ unit_name i)

unit_from_lem :
    (left i n : ℕ)
    → (i ≡ 0) ⊎ (1024 ^ i ≤ n)
    → (i ≤ unit_from left i n)
      × (unit_from left i n ≤ i + left)
      × ((unit_from left i n ≡ 0) ⊎ (1024 ^ unit_from left i n ≤ n))
      × ((unit_from left i n ≡ i + left) ⊎ (n < 1024 ^ suc (unit_from left i n)))
unfolding unit_from
unit_from_lem zero i n h = (omega arith, omega arith, h, inl (omega arith))
unit_from_lem (suc left) i n h = elim (Bool-cases (leb (1024 ^ suc i) n)) [
  | inl e ↦ rw e (longer (unit_from_lem left (suc i) n (inr (leb→le (1024 ^ suc i) n e))))
  | inr e ↦ rw e (omega arith, omega arith, h, inr (leb→gt (1024 ^ suc i) n e))
]
  where
    longer :
        (suc i ≤ unit_from left (suc i) n)
          × (unit_from left (suc i) n ≤ suc i + left)
          × ((unit_from left (suc i) n ≡ 0) ⊎ (1024 ^ unit_from left (suc i) n ≤ n))
          × ((unit_from left (suc i) n ≡ suc i + left)
              ⊎ (n < 1024 ^ suc (unit_from left (suc i) n)))
        → (i ≤ unit_from left (suc i) n)
          × (unit_from left (suc i) n ≤ i + suc left)
          × ((unit_from left (suc i) n ≡ 0) ⊎ (1024 ^ unit_from left (suc i) n ≤ n))
          × ((unit_from left (suc i) n ≡ i + suc left)
              ⊎ (n < 1024 ^ suc (unit_from left (suc i) n)))
    longer (a, b, c, inl d) = (omega arith, omega arith, c, inl (omega arith))
    longer (a, b, c, inr d) = (omega arith, omega arith, c, inr d)

-- A size is shown in one of four units, the largest of which it has at least one: below 1024 of the
-- unit unless that is GB.
pub unit_index_bounds :
    (n : ℕ)
    → (unit_index n ≤ 3)
      × ((unit_index n ≡ 0) ⊎ (1024 ^ unit_index n ≤ n))
      × ((unit_index n ≡ 3) ⊎ (n < 1024 ^ suc (unit_index n)))
unit_index_bounds n = let (a, b, c, d) = unit_from_lem 3 0 n (inl refl) in (b, c, d)
