-- ===== src/Dashboard/Privacy.antt =====
-- website/src/lib/dashboard/privacy-filter.ts: what is removed from a snapshot before it is shown.
pub mod Rounding
pub mod Redaction
pub mod Idempotent
use shadownet_agent.Common.{
  ℕ, zero, suc, ◌+◌, ◌*◌, ◌/◌, max, Bool, true, false, Option, none, some, List, [], ◌∷◌, ◌++◌, map,
  leb, ltb, if◌then◌else◌, take,
}
use shadownet_agent.Common.Int.{ℤ, pos, minℤ, maxℤ, round_ℕ, round_ℤ}
use shadownet_agent.Common.Text.{Text, txt, decimal}
use shadownet_agent.Dashboard.Types.{
  RegionAggregate, RegionStatus, InsideSignals, OutsideHelperActivity, HelperNode, ProtocolHealth,
  ReleaseHealth, ActivityItem, ConnectionFlow, Coords, DashboardSnapshot,
}

unfoldable pub bucket_unix : ℕ → ℕ → ℕ
bucket_unix unix bucket_sec = if leb bucket_sec 1 then unix else unix / bucket_sec * bucket_sec

unfoldable pub round_to : ℕ → ℕ → ℕ
round_to n step = if leb step 1 then n else round_ℕ n step

unfoldable pub quantize_coord : ℤ → ℕ → ℤ
quantize_coord v step = if leb step 0 then v else round_ℤ v step

unfoldable pub quantize_pair : Coords → ℕ → Coords
quantize_pair (x, y) step = (quantize_coord x step, quantize_coord y step)

unfoldable pub strip_low_volume_region : RegionAggregate → ℕ → RegionAggregate
strip_low_volume_region r bucket_sec = record r {
  status = RegionStatus.unknown;
  protocol_mix = [];
  config_success_rate = pos 0;
  recent_change_rate = pos 0;
  last_update_unix = bucket_unix r.last_update_unix bucket_sec;
  sample_count = 0;
}

pub data PrivacyMode : Type 0 where
  public trusted : PrivacyMode

pub record Options : Type 0 where
  pub mode : PrivacyMode
  pub threshold : Option ℕ
  pub time_bucket_sec : Option ℕ

abbrev pub public_options : Option ℕ → Option ℕ → Options
public_options threshold time_bucket_sec = record {
  mode = public;
  threshold = threshold;
  time_bucket_sec = time_bucket_sec;
}

abbrev pub or_default : Option ℕ → ℕ → ℕ
or_default none d = d
or_default (some n) d = n

-- `typeof opts.threshold === "number" ? opts.threshold : snap.privacyThreshold`
unfoldable pub threshold_of : Options → DashboardSnapshot → ℕ
threshold_of opts snap = or_default opts.threshold snap.privacy_threshold

abbrev pub default_bucket : PrivacyMode → ℕ
default_bucket public = 300
default_bucket trusted = 60

unfoldable pub bucket_of : Options → ℕ
bucket_of opts = or_default opts.time_bucket_sec (default_bucket opts.mode)

-- Half a degree.
abbrev pub half_degree : ℕ
half_degree = 500_000

-- One, in millionths.
abbrev pub one : ℤ
one = pos 1_000_000

module _ (bucket_sec : ℕ) where
  unfoldable pub region_public : ℕ → RegionAggregate → RegionAggregate
  region_public threshold r =
      if ltb r.sample_count threshold then strip_low_volume_region r bucket_sec else record r {
        last_update_unix = bucket_unix r.last_update_unix bucket_sec;
        sample_count = max threshold (round_to r.sample_count 25);
      }

  unfoldable pub filter_region : PrivacyMode → ℕ → RegionAggregate → RegionAggregate
  filter_region public threshold r = region_public threshold r
  filter_region trusted threshold r = record r {
    last_update_unix = bucket_unix r.last_update_unix bucket_sec;
  }

  -- `opts.mode === "public" ? roundTo(n, step) : n`
  abbrev pub round_public : PrivacyMode → ℕ → ℕ → ℕ
  round_public public n step = round_to n step
  round_public trusted n step = n

  unfoldable pub filter_inside : PrivacyMode → InsideSignals → InsideSignals
  filter_inside mode i = record i {
    last_update_unix = bucket_unix i.last_update_unix bucket_sec;
    active_installations = round_public mode i.active_installations 50;
  }

  unfoldable pub filter_outside : PrivacyMode → OutsideHelperActivity → OutsideHelperActivity
  filter_outside mode o = record o {
    last_update_unix = bucket_unix o.last_update_unix bucket_sec;
    bundles_generated_24h = round_public mode o.bundles_generated_24h 5;
    successful_distributions_24h = round_public mode o.successful_distributions_24h 5;
  }

  unfoldable pub filter_protocol : ProtocolHealth → ProtocolHealth
  filter_protocol p = record p { last_update_unix = bucket_unix p.last_update_unix bucket_sec }

  unfoldable pub filter_release : ReleaseHealth → ReleaseHealth
  filter_release r = record r { last_update_unix = bucket_unix r.last_update_unix bucket_sec }

  unfoldable pub filter_activity : ActivityItem → ActivityItem
  filter_activity a = record a { ts_unix = bucket_unix a.ts_unix bucket_sec }

  unfoldable pub filter_flow : PrivacyMode → ConnectionFlow → ConnectionFlow
  filter_flow public f = record f {
    from = quantize_pair f.from half_degree;
    to = quantize_pair f.to half_degree;
    ts_unix = bucket_unix f.ts_unix bucket_sec;
    intensity = minℤ one (maxℤ (pos 0) f.intensity);
  }
  filter_flow trusted f = record f { ts_unix = bucket_unix f.ts_unix bucket_sec }

  -- The callback of `helperNodes.map((n, i) => …)`.
  unfoldable pub filter_node : PrivacyMode → ℕ → HelperNode → HelperNode
  filter_node public i n = record n {
    id = txt "zone-" ++ decimal i;
    label = txt "zone";
    coords = quantize_pair n.coords half_degree;
    last_update_unix = bucket_unix n.last_update_unix bucket_sec;
  }
  filter_node trusted i n = record n {
    last_update_unix = bucket_unix n.last_update_unix bucket_sec;
  }

-- `xs.map((x, i) => f(i, x))` from the index `i` on.
unfoldable pub map_from : {A B : Type 0} → (ℕ → A → B) → ℕ → List A → List B
map_from f i [] = []
map_from f i (x ∷ xs) = f i x ∷ map_from f (suc i) xs

-- The body of applyPrivacyFilter, from its two constants on.
unfoldable pub filter_snapshot : PrivacyMode → ℕ → ℕ → DashboardSnapshot → DashboardSnapshot
filter_snapshot mode threshold bucket_sec snap = record snap {
  generated_at_unix = bucket_unix snap.generated_at_unix bucket_sec;
  privacy_threshold = threshold;
  regions = map (filter_region bucket_sec mode threshold) snap.regions;
  inside = filter_inside bucket_sec mode snap.inside;
  outside = filter_outside bucket_sec mode snap.outside;
  protocols = map (filter_protocol bucket_sec) snap.protocols;
  release = filter_release bucket_sec snap.release;
  activity = take 50 (map (filter_activity bucket_sec) snap.activity);
  flows = map (filter_flow bucket_sec mode) snap.flows;
  helper_nodes = map_from (filter_node bucket_sec mode) 0 snap.helper_nodes;
}

unfoldable pub apply_privacy_filter : DashboardSnapshot → Options → DashboardSnapshot
unfolding filter_snapshot
apply_privacy_filter snap opts =
    filter_snapshot opts.mode (threshold_of opts snap) (bucket_of opts) snap
