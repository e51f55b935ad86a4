-- ===== src/Releases/Names/Order.antt =====
-- compareReleaseAsc of website/src/lib/releases/local.ts orders version tags by their numbers.
use shadownet_agent.Common.{
  ◌≡◌, arith, Bool, true, false, ◌&&◌, ◌||◌, some, List, leb, ltb, ◌==◌, All,
}
use shadownet_agent.Common.Int.{ℤ, pos, lebℤ, sub_ℕ}
use shadownet_agent.Common.Sort.{sort, IsSorted, sort-IsSorted}
use shadownet_agent.Common.Text.{Text}
use shadownet_agent.Releases.Names.{
  Semver, parse_semver, compare_semver, compare_release_asc, release_le,
}

-- The version `a` is at most `b`: by major, then minor, then patch number.
abbrev pub semver_le : Semver → Semver → Bool
semver_le a b =
    ltb a.major b.major
    || (a.major == b.major && (ltb a.minor b.minor || (a.minor == b.minor && leb a.patch b.patch)))

compare-semver_le : (a b : Semver) → lebℤ (compare_semver a b) (pos 0) ≡ semver_le a b
unfolding compare_semver sub_ℕ
compare-semver_le a b = ground arith

semver_le_trans :
    (a b c : Semver) → semver_le a b ≡ true → semver_le b c ≡ true → semver_le a c ≡ true
semver_le_trans a b c h k = ground arith

semver_le_total : (a b : Semver) → semver_le a b ≡ false → semver_le b a ≡ true
semver_le_total a b h = ground arith

-- A tag of the form vMAJOR.MINOR.PATCH.
abbrev pub IsSemver : Text → Type 0
IsSemver tag = (v : Semver) × (parse_semver tag ≡ some v)

-- Between two version tags the comparison is that of their numbers.
pub release_le-semver_le :
    (collate : Text → Text → ℤ) (s t : Text) (a b : Semver)
    → parse_semver s ≡ some a
    → parse_semver t ≡ some b
    → release_le collate s t ≡ semver_le a b
unfolding compare_release_asc
release_le-semver_le collate s t a b h k = rw (h, k, compare_release_asc) (compare-semver_le a b)

module _ (collate : Text → Text → ℤ) where
  pub release_le_trans :
      (x y z : Text)
      → IsSemver x
      → IsSemver y
      → IsSemver z
      → release_le collate x y ≡ true
      → release_le collate y z ≡ true
      → release_le collate x z ≡ true
  release_le_trans x y z (a, h) (b, k) (c, l) p q = rw (release_le-semver_le collate x z a c h l) (
      semver_le_trans a b c (rw (release_le-semver_le collate x y a b h k) at p)
        (rw (release_le-semver_le collate y z b c k l) at q))

  pub release_le_total :
      (x y : Text)
      → IsSemver x
      → IsSemver y
      → release_le collate x y ≡ false
      → release_le collate y x ≡ true
  release_le_total x y (a, h) (b, k) p =
      rw (release_le-semver_le collate y x b a k h)
        (semver_le_total a b (rw (release_le-semver_le collate x y a b h k) at p))

  -- Sorting version tags orders them by number.
  pub sort-IsSorted_of_IsSemver :
      (tags : List Text)
      → All IsSemver tags
      → IsSorted (release_le collate) (sort (release_le collate) tags)
  sort-IsSorted_of_IsSemver tags h =
      sort-IsSorted (release_le collate) IsSemver release_le_trans release_le_total tags h
