-- ===== src/Dashboard/Map/Guarded.antt =====
-- The guard of website/src/components/dashboard/NetworkMap.tsx changes nothing on a snapshot that the privacy
-- filter has passed.
use shadownet_agent.Common.Dict.{Dict, get, set, Values, Values-set, Values-get}
use shadownet_agent.Common.Text.{Text, Unicode}
use shadownet_agent.Common.{
  ℕ, ◌≡◌, refl, sym, ap, inl, inr, arith, Bool, true, false, Option, some, List, [], ◌∷◌, ltb,
  ltb→lt, All, Bool-cases, Option-cases, is_empty,
}
use shadownet_agent.Dashboard.Map.{guarded, get_region}
use shadownet_agent.Dashboard.Panels.{index_from, build_region_index}
use shadownet_agent.Dashboard.Privacy.Redaction.{IsShown, filter-IsShown}
use shadownet_agent.Dashboard.Privacy.{public_options, apply_privacy_filter}
use shadownet_agent.Dashboard.Types.{DashboardSnapshot, RegionAggregate, RegionStatus}

index_from-Values :
    (P : RegionAggregate → Type 0) (u : Unicode) (regions : List RegionAggregate)
    (by_name : Dict RegionAggregate)
    → All P regions
    → Values P by_name
    → Values P (index_from u regions by_name)
unfolding index_from
index_from-Values P u [] by_name h k = k
index_from-Values P u (r ∷ regions) by_name (p, h) k =
    index_from-Values P u regions (set (u.to_lower r.country_name) r by_name) h
      (Values-set P (u.to_lower r.country_name) r by_name p k)

-- What is found in the index of regions has what all the regions have.
pub get-build_region_index :
    (P : RegionAggregate → Type 0) (u : Unicode) (regions : List RegionAggregate) (key : Text)
    (hit : RegionAggregate)
    → All P regions
    → get key (build_region_index u regions) ≡ some hit
    → P hit
unfolding build_region_index
get-build_region_index P u regions key hit h e =
    Values-get P key hit (index_from u regions []) (index_from-Values P u regions [] h tt) e

guarded-IsShown :
    (privacy : Bool) (threshold : ℕ) (r : RegionAggregate)
    → IsShown threshold r
    → guarded privacy threshold r ≡ r
unfolding guarded
guarded-IsShown false threshold r h = refl
guarded-IsShown true threshold r h = elim (Bool-cases (ltb r.sample_count threshold)) [
  | inr e ↦ rw (e, guarded) refl
  | inl e ↦
      rw (e, guarded)
        (elim h [
          | inl redacted ↦
              ap (λ (status : RegionStatus). record r { status = status }) (sym redacted.status)
          | inr enough ↦ absurd (omega (arith, ltb→lt r.sample_count threshold e))
        ])
]

-- On a snapshot that was filtered for the public, the map shows a shape as its entry in the index of regions: the
-- map's own guard by the threshold changes nothing.
pub get_region-filtered :
    (u : Unicode) (snap : DashboardSnapshot) (threshold bucket : Option ℕ) (privacy_mode : Bool)
    (name : Text)
    → is_empty name ≡ false
    → get_region u
        (apply_privacy_filter snap (public_options threshold bucket))
        privacy_mode
        (some name)
      ≡ get (u.to_lower name) (
          build_region_index u
            (apply_privacy_filter snap (public_options threshold bucket)).regions)
unfolding get_region
get_region-filtered u snap threshold bucket privacy_mode name ne =
    let shown = apply_privacy_filter snap (public_options threshold bucket) in
    elim (Option-cases (get (u.to_lower name) (build_region_index u shown.regions))) [
      | inl e ↦ rw (ne, get_region, e) refl
      | inr (hit, e) ↦
          rw (ne, get_region, e)
            (ap some (
              guarded-IsShown privacy_mode shown.privacy_threshold hit (
                get-build_region_index (IsShown shown.privacy_threshold) u shown.regions
                  (u.to_lower name) hit (filter-IsShown snap threshold bucket) e)))
    ]
