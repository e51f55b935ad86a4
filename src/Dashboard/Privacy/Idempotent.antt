-- ===== src/Dashboard/Privacy/Idempotent.antt =====
-- Filtering a snapshot that was filtered for the public changes nothing.
use shadownet_agent.Common.{
  ℕ, zero, suc, ◌≡◌, refl, sym, ap, ap₂, ◌∙◌, arith, Option, none, some, List, [], ◌∷◌, map, take,
}
use shadownet_agent.Dashboard.Types.{
  RegionAggregate, InsideSignals, OutsideHelperActivity, HelperNode, ProtocolHealth, ReleaseHealth,
  ActivityItem, ConnectionFlow, DashboardSnapshot,
}
use shadownet_agent.Dashboard.Privacy.Rounding.{
  bucket_unix_idem, round_to_idem_5, round_to_idem_50, shown_count_idem, quantize_pair_idem,
  clamp_idem,
}
use shadownet_agent.Dashboard.Privacy.{
  strip_low_volume_region, region_public, filter_region, filter_inside, filter_outside,
  filter_protocol, filter_release, filter_activity, filter_flow, filter_node, map_from, public,
  threshold_of, public_options, filter_snapshot, apply_privacy_filter,
}

map_idem :
    {A : Type 0} (f : A → A)
    → ((x : A) → f (f x) ≡ f x)
    → (xs : List A) → map f (map f xs) ≡ map f xs
map_idem f h [] = refl
map_idem {A} f h (x ∷ xs) = ap₂ (λ (y : A) (ys : List A). y ∷ ys) (h x) (map_idem f h xs)

map_from_idem :
    {A : Type 0} (f : ℕ → A → A)
    → ((i : ℕ) (x : A) → f i (f i x) ≡ f i x)
    → (i : ℕ) (xs : List A) → map_from f i (map_from f i xs) ≡ map_from f i xs
unfolding map_from
map_from_idem f h i [] = refl
map_from_idem {A} f h i (x ∷ xs) =
    ap₂ (λ (y : A) (ys : List A). y ∷ ys) (h i x) (map_from_idem f h (suc i) xs)

take-map : {A : Type 0} (f : A → A) (n : ℕ) (xs : List A) → take n (map f xs) ≡ map f (take n xs)
take-map f zero xs = refl
take-map f (suc n) [] = refl
take-map {A} f (suc n) (x ∷ xs) = ap (λ (ys : List A). f x ∷ ys) (take-map f n xs)

take_idem : {A : Type 0} (n : ℕ) (xs : List A) → take n (take n xs) ≡ take n xs
take_idem zero xs = refl
take_idem (suc n) [] = refl
take_idem {A} (suc n) (x ∷ xs) = ap (λ (ys : List A). x ∷ ys) (take_idem n xs)

activity_idem :
    {A : Type 0} (f : A → A) (n : ℕ) (xs : List A)
    → ((x : A) → f (f x) ≡ f x)
    → take n (map f (take n (map f xs))) ≡ take n (map f xs)
activity_idem f n xs h =
    take-map f n (take n (map f xs))
    ∙ ap (map f) (take_idem n (map f xs))
    ∙ sym (take-map f n (map f xs))
    ∙ ap (take n) (map_idem f h xs)

module _ (b : ℕ) where
  region_idem :
      (threshold : ℕ) (r : RegionAggregate)
      → region_public b threshold (region_public b threshold r) ≡ region_public b threshold r
  unfolding region_public strip_low_volume_region
  region_idem threshold r =
      ground
        (arith, bucket_unix_idem r.last_update_unix b, shown_count_idem threshold r.sample_count)

  inside_idem :
      (i : InsideSignals)
      → filter_inside b public (filter_inside b public i) ≡ filter_inside b public i
  unfolding filter_inside
  inside_idem i = simp (bucket_unix_idem, round_to_idem_50)

  outside_idem :
      (o : OutsideHelperActivity)
      → filter_outside b public (filter_outside b public o) ≡ filter_outside b public o
  unfolding filter_outside
  outside_idem o = simp (bucket_unix_idem, round_to_idem_5)

  protocol_idem :
      (p : ProtocolHealth) → filter_protocol b (filter_protocol b p) ≡ filter_protocol b p
  unfolding filter_protocol
  protocol_idem p = simp bucket_unix_idem

  release_idem : (r : ReleaseHealth) → filter_release b (filter_release b r) ≡ filter_release b r
  unfolding filter_release
  release_idem r = simp bucket_unix_idem

  activity_item_idem :
      (a : ActivityItem) → filter_activity b (filter_activity b a) ≡ filter_activity b a
  unfolding filter_activity
  activity_item_idem a = simp bucket_unix_idem

  flow_idem :
      (f : ConnectionFlow) → filter_flow b public (filter_flow b public f) ≡ filter_flow b public f
  unfolding filter_flow
  flow_idem f = simp (bucket_unix_idem, quantize_pair_idem, clamp_idem)

  node_idem :
      (i : ℕ) (n : HelperNode)
      → filter_node b public i (filter_node b public i n) ≡ filter_node b public i n
  unfolding filter_node
  node_idem i n = simp (bucket_unix_idem, quantize_pair_idem)

filter_snapshot_idem :
    (t b : ℕ) (snap : DashboardSnapshot)
    → filter_snapshot public t b (filter_snapshot public t b snap) ≡ filter_snapshot public t b snap
unfolding filter_snapshot filter_region
filter_snapshot_idem t b snap = λ i. record (filter_snapshot public t b snap) {
  generated_at_unix = bucket_unix_idem snap.generated_at_unix b i;
  regions = map_idem (region_public b t) (region_idem b t) snap.regions i;
  inside = inside_idem b snap.inside i;
  outside = outside_idem b snap.outside i;
  protocols = map_idem (filter_protocol b) (protocol_idem b) snap.protocols i;
  release = release_idem b snap.release i;
  activity = activity_idem (filter_activity b) 50 snap.activity (activity_item_idem b) i;
  flows = map_idem (filter_flow b public) (flow_idem b) snap.flows i;
  helper_nodes = map_from_idem (filter_node b public) (node_idem b) 0 snap.helper_nodes i;
}

-- Filtering for the public a snapshot that was filtered with the same options changes nothing: the
-- rounded counts, times and coordinates, the redacted regions and the renamed helper zones stay.
pub filter_idem :
    (snap : DashboardSnapshot) (threshold time_bucket_sec : Option ℕ)
    → let opts = public_options threshold time_bucket_sec in
      apply_privacy_filter (apply_privacy_filter snap opts) opts ≡ apply_privacy_filter snap opts
unfolding apply_privacy_filter threshold_of
filter_idem snap none b = filter_snapshot_idem snap.privacy_threshold _ snap
filter_idem snap (some t) b = filter_snapshot_idem t _ snap
