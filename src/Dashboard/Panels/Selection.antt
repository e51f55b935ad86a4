-- ===== src/Dashboard/Panels/Selection.antt =====
-- What the activity feed lists, and that the status counts leave no region out.
use shadownet_agent.Common.Pairwise.{IsSorted-take}
use shadownet_agent.Common.Sort.{sort, IsSorted, sort-IsSorted, All-sort}
use shadownet_agent.Common.{
  ℕ, suc, ◌+◌, ◌≤◌, ◌≡◌, arith, Bool, true, false, Option, List, [], ◌∷◌, filter, length,
  length-take, leb→le, All, All-take, All-filter,
}
use shadownet_agent.Dashboard.Panels.{
  TimeWindow, window_to_sec, has_severity, is_recent, newer_item, feed_items, StatusCounts,
  count_status, count_from, count_by_status, no_counts,
}
use shadownet_agent.Dashboard.Types.{ActivityItem, ActivitySeverity, RegionAggregate, RegionStatus}

filter-All : {A : Type 0} (t : A → Bool) (xs : List A) → All (λ x. t x ≡ true) (filter t xs)
filter-All t [] = tt
filter-All t (x ∷ xs) = ground (arith, filter-All t xs)

-- The items that the two filters let through.
filtered :
    (now : ℕ) (window : TimeWindow) (severity : Option ActivitySeverity) (items : List ActivityItem)
    → All (λ a. has_severity severity a ≡ true) items
    → All (λ a. is_recent now window a ≡ true) items
    → All (λ a. (has_severity severity a ≡ true) × (now ≤ a.ts_unix + window_to_sec window)) items
filtered now window severity [] h k = tt
filtered now window severity (a ∷ items) (p, h) (q, k) =
    ((p, leb→le now (a.ts_unix + window_to_sec window) q), filtered now window severity items h k)

newer_trans :
    (x y z : ActivityItem) → newer_item x y ≡ true → newer_item y z ≡ true → newer_item x z ≡ true
newer_trans x y z h k = ground arith

newer_total : (x y : ActivityItem) → newer_item x y ≡ false → newer_item y x ≡ true
newer_total x y h = ground arith

-- The activity feed lists at most ten items, from the newest to the oldest, each of the chosen severity
-- and within the chosen time.
pub feed_items_lem :
    (now : ℕ) (window : TimeWindow) (severity : Option ActivitySeverity)
    (activity : List ActivityItem)
    → (length (feed_items now window severity activity) ≤ 10)
      × IsSorted newer_item (feed_items now window severity activity)
      × All
          (λ a. (has_severity severity a ≡ true) × (now ≤ a.ts_unix + window_to_sec window))
          (feed_items now window severity activity)
unfolding feed_items
feed_items_lem now window severity activity =
    let recent = filter (is_recent now window) activity in
    let items = filter (has_severity severity) recent in
    let Listed : ActivityItem → Type 0 =
      λ a. (has_severity severity a ≡ true) × (now ≤ a.ts_unix + window_to_sec window) in
    let listed = filtered now window severity items (filter-All (has_severity severity) recent) (
      All-filter (λ a. is_recent now window a ≡ true) (has_severity severity) recent
        (filter-All (is_recent now window) activity)) in
    (
      length-take 10 (sort newer_item items),
      IsSorted-take newer_item 10 (sort newer_item items) (
          sort-IsSorted newer_item Listed (λ x y z p q r. newer_trans x y z)
            (λ x y p q. newer_total x y) items listed),
      All-take Listed 10 (sort newer_item items) (All-sort newer_item Listed items listed),
    )

unfoldable pub total : StatusCounts → ℕ
total n = n.healthy_count + n.degraded_count + n.unstable_count + n.blocked_count + n.unknown_count

total-count_status :
    (n : StatusCounts) (s : RegionStatus) → total (count_status n s) ≡ suc (total n)
unfolding total count_status
total-count_status n RegionStatus.healthy = omega arith
total-count_status n RegionStatus.degraded = omega arith
total-count_status n RegionStatus.unstable = omega arith
total-count_status n RegionStatus.blocked = omega arith
total-count_status n RegionStatus.unknown = omega arith

total-count_from :
    (n : StatusCounts) (rs : List RegionAggregate) → total (count_from n rs) ≡ total n + length rs
unfolding count_from
total-count_from n [] = omega arith
total-count_from n (r ∷ rs) =
    omega (arith, total-count_from (count_status n r.status) rs, total-count_status n r.status)

-- Every region is counted under one status.
pub total-count_by_status :
    (regions : List RegionAggregate) → total (count_by_status regions) ≡ length regions
unfolding count_by_status total
total-count_by_status regions = omega (arith, total-count_from no_counts regions)
