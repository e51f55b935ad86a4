-- ===== src/Dashboard/Map.antt =====
-- The map of the dashboard: which region website/src/components/dashboard/NetworkMap.tsx shows in its tooltip
-- and hands on when it is clicked, what RegionTooltip.tsx and RegionDetailCard.tsx list of it, and the selection
-- and the privacy switch of LiveDashboard.tsx around it.
pub mod Guarded
pub mod Explored
use shadownet_agent.Common.Dict.{Dict, get}
use shadownet_agent.Common.Int.{ℤ, pos, lebℤ}
use shadownet_agent.Common.Sort.{sort}
use shadownet_agent.Common.Text.{Text, txt, same, Unicode}
use shadownet_agent.Common.{
  ℕ, Bool, true, false, not, ◌&&◌, Option, none, some, List, [], ◌∷◌, find, take, ltb,
  if◌then◌else◌, is_empty,
}
use shadownet_agent.Dashboard.Panels.{build_region_index}
use shadownet_agent.Dashboard.Privacy.{Options, PrivacyMode, public, trusted, apply_privacy_filter}
use shadownet_agent.Dashboard.Types.{
  DashboardSnapshot, DashboardView, RegionAggregate, RegionStatus, ProtocolId,
}

-- centerForView, in millionths of a degree, and zoomForView, in tenths.
unfoldable pub center_for_view : DashboardView → ℤ × ℤ
center_for_view DashboardView.iran = (pos 53_700_000, pos 32_000_000)
center_for_view _ = (pos 10_000_000, pos 20_000_000)

unfoldable pub zoom_for_view : DashboardView → ℕ
zoom_for_view DashboardView.iran = 34
zoom_for_view _ = 10

-- The guard of getRegion.
unfoldable pub guarded : Bool → ℕ → RegionAggregate → RegionAggregate
guarded privacy_mode threshold hit =
    if privacy_mode && ltb hit.sample_count threshold
    then record hit { status = RegionStatus.unknown }
    else hit

-- getRegion, of the name of a shape on the map.
unfoldable pub get_region :
    Unicode → DashboardSnapshot → Bool → Option Text → Option RegionAggregate
get_region u snapshot privacy_mode none = none
get_region u snapshot privacy_mode (some name) =
    if is_empty name
    then none
    else elim (get (u.to_lower name) (build_region_index u snapshot.regions)) [
      | none ↦ none
      | some hit ↦ some (guarded privacy_mode snapshot.privacy_threshold hit)
    ]

-- RegionTooltipState
pub record Tooltip : Type 0 where
  pub visible : Bool
  pub x : ℕ
  pub y : ℕ
  pub region : Option RegionAggregate

abbrev pub no_tooltip : Tooltip
no_tooltip = record { visible = false; x = 0; y = 0; region = none }

-- What RegionTooltip shows.
unfoldable pub tooltip_region : Tooltip → Option RegionAggregate
tooltip_region t = if t.visible then t.region else none

-- The state of LiveDashboard about the map, with that of the map.
pub record Explorer : Type 0 where
  pub privacy_mode : Bool
  pub snapshot : Option DashboardSnapshot
  pub selected_region_name : Option Text
  pub tooltip : Tooltip

abbrev pub opened : Explorer
opened = record {
  privacy_mode = true;
  snapshot = none;
  selected_region_name = none;
  tooltip = no_tooltip;
}

abbrev pub mode_options : Bool → Options
mode_options privacy_mode = record {
  mode = if privacy_mode then public else trusted;
  threshold = none;
  time_bucket_sec = none;
}

-- displaySnapshot
unfoldable pub display_snapshot : Explorer → Option DashboardSnapshot
display_snapshot s = elim s.snapshot [
  | none ↦ none
  | some snap ↦ some (apply_privacy_filter snap (mode_options s.privacy_mode))
]

-- The region of a shape; there is no map without a snapshot.
unfoldable pub region_at : Unicode → Explorer → Option Text → Option RegionAggregate
region_at u s name = elim (display_snapshot s) [
  | none ↦ none
  | some snap ↦ get_region u snap s.privacy_mode name
]

-- onRegionEnter and onRegionMove
unfoldable pub hover : Unicode → Option Text → ℕ → ℕ → Explorer → Explorer
hover u name x y s = elim (region_at u s name) [
  | none ↦ s
  | some region ↦ record s {
    tooltip = record { visible = true; x = x; y = y; region = some region };
  }
]

-- onRegionLeave
unfoldable pub leave : Explorer → Explorer
leave s = record s { tooltip = no_tooltip }

-- onRegionClick, also by the keyboard, with onSelectRegion of LiveDashboard.
unfoldable pub click : Unicode → Option Text → Explorer → Explorer
click u name s = elim (region_at u s name) [
  | none ↦ s
  | some region ↦ record s { selected_region_name = some region.country_name }
]

unfoldable pub toggle_privacy : Explorer → Explorer
toggle_privacy s = record s { privacy_mode = not s.privacy_mode }

-- A new snapshot; the map goes with the last one, and its tooltip with it.
unfoldable pub set_snapshot : Option DashboardSnapshot → Explorer → Explorer
set_snapshot none s = record s { snapshot = none; tooltip = no_tooltip }
set_snapshot (some snap) s = record s { snapshot = some snap }

-- selectedRegion, which RegionDetailCard shows.
unfoldable pub selected_region : Explorer → Option RegionAggregate
selected_region s = elim s.selected_region_name [
  | none ↦ none
  | some name ↦ if is_empty name then none else elim (display_snapshot s) [
    | none ↦ none
    | some snap ↦ find (λ (r : RegionAggregate). same r.country_name name) snap.regions
  ]
]

abbrev pub share_ge : ProtocolId × ℤ → ProtocolId × ℤ → Bool
share_ge a b = lebℤ b.1 a.1

-- The largest shares of the protocols: three in RegionTooltip, five in RegionDetailCard.
unfoldable pub top_mix : ℕ → RegionAggregate → List (ProtocolId × ℤ)
top_mix n r = take n (sort share_ge r.protocol_mix)
