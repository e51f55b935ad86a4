-- ===== src/Dashboard/Privacy/Redaction.antt =====
-- What the public mode of applyPrivacyFilter lets through of regions with few samples.
use shadownet_agent.Common.{
  ℕ, ◌≤◌, ◌<◌, ◌≡◌, refl, sym, ap, ap₂, ◌⊎◌, inl, inr, arith, ltb, Option, List, [], ◌∷◌, map,
  Bool-cases, All,
}
use shadownet_agent.Common.Int.{pos}
use shadownet_agent.Dashboard.Types.{RegionAggregate, RegionStatus, DashboardSnapshot}
use shadownet_agent.Dashboard.Privacy.{
  bucket_unix, strip_low_volume_region, region_public, filter_region, public_options, threshold_of,
  bucket_of, apply_privacy_filter,
}

-- A region of which nothing but its name and the bucket of its last update is left.
pub record IsRedacted (r : RegionAggregate) : Type 0 where
  pub status : r.status ≡ RegionStatus.unknown
  pub mix : r.protocol_mix ≡ []
  pub success : r.config_success_rate ≡ pos 0
  pub change : r.recent_change_rate ≡ pos 0
  pub samples : r.sample_count ≡ 0

abbrev pub IsShown : ℕ → RegionAggregate → Type 0
IsShown threshold r = IsRedacted r ⊎ (threshold ≤ r.sample_count)

region_public-IsShown :
    (b threshold : ℕ) (r : RegionAggregate) → IsShown threshold (region_public b threshold r)
unfolding region_public strip_low_volume_region
region_public-IsShown b threshold r = elim (Bool-cases (ltb r.sample_count threshold)) [
  | inl e ↦
      rw e
        (inl (record { status = refl; mix = refl; success = refl; change = refl; samples = refl }))
  | inr e ↦ rw e (inr (omega arith))
]

map-IsShown :
    (b threshold : ℕ) (rs : List RegionAggregate)
    → All (IsShown threshold) (map (region_public b threshold) rs)
map-IsShown b threshold [] = tt
map-IsShown b threshold (r ∷ rs) = (region_public-IsShown b threshold r, map-IsShown b threshold rs)

-- Two regions that differ only in what a region with few samples has to hide.
pub record Indistinct (b threshold : ℕ) (r s : RegionAggregate) : Type 0 where
  pub name : r.country_name ≡ s.country_name
  pub bucket : bucket_unix r.last_update_unix b ≡ bucket_unix s.last_update_unix b
  pub few : r.sample_count < threshold
  pub few' : s.sample_count < threshold

-- Lists of regions that are equal but for the hidden parts of regions with few samples.
pub data SameButHidden (b threshold : ℕ)
    : List RegionAggregate → List RegionAggregate → Type 0 where
  done : SameButHidden b threshold [] []
  same :
      {rs ss : List RegionAggregate}
      → (r : RegionAggregate) → SameButHidden b threshold rs ss
      → SameButHidden b threshold (r ∷ rs) (r ∷ ss)
  hidden :
      {r s : RegionAggregate} {rs ss : List RegionAggregate}
      → Indistinct b threshold r s
      → SameButHidden b threshold rs ss
      → SameButHidden b threshold (r ∷ rs) (s ∷ ss)

region_public-Indistinct :
    (b threshold : ℕ) (r s : RegionAggregate)
    → Indistinct b threshold r s
    → region_public b threshold r ≡ region_public b threshold s
unfolding region_public strip_low_volume_region
region_public-Indistinct b threshold r s i = ground (arith, i.name, i.bucket, i.few, i.few')

map-SameButHidden :
    (b threshold : ℕ) {rs ss : List RegionAggregate}
    → SameButHidden b threshold rs ss
    → map (region_public b threshold) rs ≡ map (region_public b threshold) ss
map-SameButHidden b threshold done = refl
map-SameButHidden b threshold (same r h) =
    ap (λ (xs : List RegionAggregate). region_public b threshold r ∷ xs)
      (map-SameButHidden b threshold h)
map-SameButHidden b threshold (hidden {r} {s} i h) =
    ap₂ (λ (x : RegionAggregate) (xs : List RegionAggregate). x ∷ xs)
      (region_public-Indistinct b threshold r s i) (map-SameButHidden b threshold h)

pub filter-IsShown :
    (snap : DashboardSnapshot) (threshold time_bucket_sec : Option ℕ)
    → let shown = apply_privacy_filter snap (public_options threshold time_bucket_sec) in
      All (IsShown shown.privacy_threshold) shown.regions
unfolding apply_privacy_filter filter_region
filter-IsShown snap threshold time_bucket_sec = map-IsShown _ _ snap.regions

-- In public mode two snapshots whose regions differ only in what regions with fewer samples than the
-- threshold have to hide (all but their names and the buckets of their times) are shown alike.
pub filter-SameButHidden :
    (snap : DashboardSnapshot) (threshold time_bucket_sec : Option ℕ) (rs : List RegionAggregate)
    → let opts = public_options threshold time_bucket_sec in
      SameButHidden (bucket_of opts) (threshold_of opts snap) snap.regions rs
      → apply_privacy_filter
          (record snap { regions = rs })
          (public_options threshold time_bucket_sec)
        ≡ apply_privacy_filter snap (public_options threshold time_bucket_sec)
unfolding apply_privacy_filter filter_region threshold_of
filter-SameButHidden snap threshold time_bucket_sec rs h =
    ap
      (λ (xs : List RegionAggregate).
        record (apply_privacy_filter snap (public_options threshold time_bucket_sec)) {
          regions = xs;
        })
      (sym (map-SameButHidden _ _ h))
