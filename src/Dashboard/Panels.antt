-- ===== src/Dashboard/Panels.antt =====
-- What the panels of the dashboard select and count: ActivityFeed.tsx, SummaryCards.tsx, format.ts of
-- website/src/components/dashboard, and website/src/lib/dashboard/transform-map-data.ts.
pub mod Selection
use shadownet_agent.Common.Dict.{Dict, set}
use shadownet_agent.Common.Sort.{sort}
use shadownet_agent.Common.Text.{Text, txt, decimal, Unicode}
use shadownet_agent.Common.{
  ℕ, suc, ◌+◌, ◌-◌, ◌/◌, ◌*◌, Bool, true, false, Option, none, some, List, [], ◌∷◌, ◌++◌, filter,
  take, leb, ltb, if◌then◌else◌,
}
use shadownet_agent.Dashboard.Types.{
  ActivityItem, ActivitySeverity, info, warn, crit, RegionAggregate, RegionStatus, healthy,
  degraded, unstable, blocked,
}

-- The loop of buildRegionIndex.
unfoldable pub index_from :
    Unicode → List RegionAggregate → Dict RegionAggregate → Dict RegionAggregate
index_from u [] by_name = by_name
index_from u (r ∷ regions) by_name =
    index_from u regions (set (u.to_lower r.country_name) r by_name)

-- buildRegionIndex
unfoldable pub build_region_index : Unicode → List RegionAggregate → Dict RegionAggregate
build_region_index u regions = index_from u regions []

pub data TimeWindow : Type 0 where
  minutes_15 hour_1 hours_24 : TimeWindow

-- windowToSec
unfoldable pub window_to_sec : TimeWindow → ℕ
window_to_sec minutes_15 = 15 * 60
window_to_sec hour_1 = 60 * 60
window_to_sec hours_24 = 24 * 60 * 60

unfoldable pub same_severity : ActivitySeverity → ActivitySeverity → Bool
same_severity info info = true
same_severity warn warn = true
same_severity crit crit = true
same_severity _ _ = false

-- `severity === "all"` is `none`.
abbrev pub has_severity : Option ActivitySeverity → ActivityItem → Bool
has_severity none a = true
has_severity (some severity) a = same_severity a.severity severity

-- `a.tsUnix >= cutoff`, the cutoff being `now` less the window.
abbrev pub is_recent : ℕ → TimeWindow → ActivityItem → Bool
is_recent now window a = leb now (a.ts_unix + window_to_sec window)

abbrev pub newer_item : ActivityItem → ActivityItem → Bool
newer_item a b = leb b.ts_unix a.ts_unix

-- The items of ActivityFeed.
unfoldable pub feed_items :
    ℕ → TimeWindow → Option ActivitySeverity → List ActivityItem → List ActivityItem
feed_items now window severity activity =
    take 10
      (sort newer_item (filter (has_severity severity) (filter (is_recent now window) activity)))

pub record StatusCounts : Type 0 where
  pub healthy_count : ℕ
  pub degraded_count : ℕ
  pub unstable_count : ℕ
  pub blocked_count : ℕ
  pub unknown_count : ℕ

abbrev no_counts : StatusCounts
no_counts = record {
  healthy_count = 0;
  degraded_count = 0;
  unstable_count = 0;
  blocked_count = 0;
  unknown_count = 0;
}

-- `out[r.status] = out[r.status] + 1`
unfoldable pub count_status : StatusCounts → RegionStatus → StatusCounts
count_status n RegionStatus.healthy = record n { healthy_count = suc n.healthy_count }
count_status n RegionStatus.degraded = record n { degraded_count = suc n.degraded_count }
count_status n RegionStatus.unstable = record n { unstable_count = suc n.unstable_count }
count_status n RegionStatus.blocked = record n { blocked_count = suc n.blocked_count }
count_status n RegionStatus.unknown = record n { unknown_count = suc n.unknown_count }

unfoldable pub count_from : StatusCounts → List RegionAggregate → StatusCounts
count_from n [] = n
count_from n (r ∷ rs) = count_from (count_status n r.status) rs

-- countByStatus
unfoldable pub count_by_status : List RegionAggregate → StatusCounts
count_by_status regions = count_from no_counts regions

pub data Freshness : Type 0 where
  live delayed stale offline : Freshness

-- freshnessLabel; `now - generated` is 0 for a time to come, as `Math.max(0, …)` makes it.
unfoldable pub freshness_label : ℕ → ℕ → Freshness
freshness_label now generated =
    let age = now - generated in
    if ltb age 20
    then live
    else if ltb age 90
    then delayed
    else if ltb age (10 * 60)
    then stale
    else offline

-- formatUnixAgo
unfoldable pub format_unix_ago : ℕ → ℕ → Text
format_unix_ago now unix =
    let diff = now - unix in
    let m = diff / 60 in
    let h = m / 60 in
    if ltb diff 60
    then decimal diff ++ txt "s ago"
    else if ltb m 60
    then decimal m ++ txt "m ago"
    else if ltb h 48
    then decimal h ++ txt "h ago"
    else decimal (h / 24) ++ txt "d ago"
