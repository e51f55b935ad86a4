-- ===== src/Dashboard/Types.antt =====
-- website/src/lib/dashboard/types.ts. Unix times and counts are naturals; rates, scores and hours
-- are integers in millionths, coordinates integers in millionths of a degree. A `Partial<Record>`
-- is an association list. The constant field `version: 1` is left out.
use shadownet_agent.Common.{ℕ, Bool, Option, List}
use shadownet_agent.Common.Int.{ℤ}
use shadownet_agent.Common.Text.{Text}

pub data DashboardView : Type 0 where
  global iran protocols releases : DashboardView

pub data RegionStatus : Type 0 where
  healthy degraded unstable blocked unknown : RegionStatus

pub data ProtocolId : Type 0 where
  reality hysteria2 tuic shadowtls dns_tunnel : ProtocolId

pub data RecommendationTier : Type 0 where
  primary secondary fallback avoid : RecommendationTier

pub data SignatureStatus : Type 0 where
  ok warn fail : SignatureStatus

pub data ActivitySeverity : Type 0 where
  info warn crit : ActivitySeverity

pub data ActivityType : Type 0 where
  snapshot dpi_shift protocol_cooldown bundle_generated bundle_imported bundle_rejected :
      ActivityType
  helper_status : ActivityType

pub data HelperAvailability : Type 0 where
  up degraded down : HelperAvailability

abbrev pub Coords : Type 0
Coords = ℤ × ℤ

pub record RegionAggregate : Type 0 where
  pub country_name : Text
  pub status : RegionStatus
  pub protocol_mix : List (ProtocolId × ℤ)
  pub config_success_rate : ℤ
  pub recent_change_rate : ℤ
  pub last_update_unix : ℕ
  pub sample_count : ℕ

pub record InsideSignals : Type 0 where
  pub active_installations : ℕ
  pub protocol_survival_rate : ℤ
  pub blackout_probability : ℤ
  pub mesh_activity_score : ℤ
  pub seed_adoption_rate : ℤ
  pub last_update_unix : ℕ

pub record HelperNode : Type 0 where
  pub id : Text
  pub label : Text
  pub region_label : Text
  pub coords : Coords
  pub availability : HelperAvailability
  pub last_update_unix : ℕ

pub record OutsideHelperActivity : Type 0 where
  pub active_helper_regions : List Text
  pub bundles_generated_24h : ℕ
  pub successful_distributions_24h : ℕ
  pub profile_freshness_hours : ℤ
  pub helper_availability_score : ℤ
  pub last_update_unix : ℕ

pub record ProtocolHealth : Type 0 where
  pub protocol : ProtocolId
  pub success_rate : ℤ
  pub failure_trend : ℤ
  pub cooldown_rate : ℤ
  pub recommendation_tier : RecommendationTier
  pub last_update_unix : ℕ

pub record PlatformArtifacts : Type 0 where
  pub android : Bool
  pub linux : Bool
  pub windows : Bool
  pub macos : Bool

pub record ReleaseHealth : Type 0 where
  pub latest_version : Text
  pub installer_downloads_24h : Option ℕ
  pub manifest_freshness_sec : ℕ
  pub signature_status : SignatureStatus
  pub platform_artifacts : PlatformArtifacts
  pub last_update_unix : ℕ

pub record ActivityItem : Type 0 where
  pub id : Text
  pub ts_unix : ℕ
  pub severity : ActivitySeverity
  pub type : ActivityType
  pub message : Text
  pub region_label : Option Text

pub record ConnectionFlow : Type 0 where
  pub id : Text
  pub from : Coords
  pub to : Coords
  pub intensity : ℤ
  pub label : Option Text
  pub ts_unix : ℕ

pub record DashboardSnapshot : Type 0 where
  pub view : DashboardView
  pub generated_at_unix : ℕ
  pub privacy_threshold : ℕ
  pub regions : List RegionAggregate
  pub inside : InsideSignals
  pub outside : OutsideHelperActivity
  pub protocols : List ProtocolHealth
  pub release : ReleaseHealth
  pub helper_nodes : List HelperNode
  pub flows : List ConnectionFlow
  pub activity : List ActivityItem
