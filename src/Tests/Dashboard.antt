-- ===== src/Tests/Dashboard.antt =====
-- Examples for the privacy filter of the dashboard.
use shadownet_agent.Common.Int.{pos}
use shadownet_agent.Common.Text.{Text, txt}
use shadownet_agent.Common.{
  is_empty, length, ℕ, ◌+◌, ◌≤◌, ◌<◌, ◌≡◌, refl, arith, true, false, none, some, [], ◌∷◌,
}
use shadownet_agent.Dashboard.Privacy.Idempotent.{filter_idem}
use shadownet_agent.Dashboard.Privacy.Redaction.{
  Indistinct, done, same, hidden, filter-SameButHidden,
}
use shadownet_agent.Dashboard.Privacy.{
  bucket_unix, public_options, threshold_of, bucket_of, apply_privacy_filter,
}
use shadownet_agent.Dashboard.Fetch.{Json, num, str, arr, obj, end, field, Url, Response, Web}
use shadownet_agent.Dashboard.Fetch.Accepted.{IsGood, Present, fetch_dashboard_snapshot_lem}
use shadownet_agent.Dashboard.Types.{
  DashboardView, RegionStatus, ProtocolId, SignatureStatus, HelperAvailability, RegionAggregate,
  DashboardSnapshot,
}

abbrev served_json : Json
served_json = obj (
    field (txt "version") (num 1) (
      field (txt "view") (str (txt "iran")) (
        field (txt "regions") (arr end) (
          field (txt "protocols") (arr end) (
            field (txt "helperNodes") (arr end)
              (field (txt "flows") (arr end) (field (txt "activity") (arr end) end)))))))

abbrev served_response : Response
served_response = record { status = 200; json = some served_json }

abbrev served_web : Web
served_web = record {
  parse_url = λ t relative. some (record { address = t; search_params = [] });
  fetch = λ url. some served_response;
  url_error = txt "Invalid URL";
  fetch_error = txt "Failed to fetch";
  json_error = txt "Unexpected end of JSON input";
}

abbrev served_base : Text
served_base = txt "/{view}.json"

fetch_dashboard_snapshot_lem_example :
    (is_empty served_base ≡ false)
    × ((url : Url) × (res : Response) × (served_web.fetch url ≡ some res)
        × IsGood served_json res
        × Present (txt "view") url.search_params
        × Present (txt "privacyThreshold") url.search_params)
unfolding shadownet_agent.Dashboard.Fetch.fetch_dashboard_snapshot txt
    shadownet_agent.Dashboard.Fetch.build_dashboard_url
    shadownet_agent.Dashboard.Fetch.check_response
    shadownet_agent.Dashboard.Fetch.shallow_validate_snapshot
    shadownet_agent.Dashboard.Fetch.field_of shadownet_agent.Common.Text.same
    shadownet_agent.Dashboard.Fetch.is_truthy
fetch_dashboard_snapshot_lem_example =
    fetch_dashboard_snapshot_lem served_web served_base DashboardView.iran 20 served_json refl

abbrev pub big_region : RegionAggregate
big_region = record {
  country_name = txt "Iran";
  status = RegionStatus.degraded;
  protocol_mix = (ProtocolId.reality, pos 700_000) ∷ [];
  config_success_rate = pos 800_000;
  recent_change_rate = pos 100_000;
  last_update_unix = 1_700_000_123;
  sample_count = 130;
}

abbrev pub small_region : RegionAggregate
small_region = record {
  country_name = txt "Malta";
  status = RegionStatus.blocked;
  protocol_mix = (ProtocolId.tuic, pos 1_000_000) ∷ [];
  config_success_rate = pos 100_000;
  recent_change_rate = pos 0;
  last_update_unix = 1_700_000_123;
  sample_count = 3;
}

-- The same country with other values, of which the public is told nothing.
abbrev other_small_region : RegionAggregate
other_small_region = record {
  country_name = txt "Malta";
  status = RegionStatus.healthy;
  protocol_mix = [];
  config_success_rate = pos 900_000;
  recent_change_rate = pos 5;
  last_update_unix = 1_700_000_120;
  sample_count = 7;
}

-- A snapshot with a threshold.
abbrev pub snapshot : ℕ → DashboardSnapshot
snapshot threshold = record {
  view = DashboardView.global;
  generated_at_unix = 1_700_000_200;
  privacy_threshold = threshold;
  regions = big_region ∷ small_region ∷ [];
  inside = record {
    active_installations = 1234;
    protocol_survival_rate = pos 900_000;
    blackout_probability = pos 10_000;
    mesh_activity_score = pos 400_000;
    seed_adoption_rate = pos 300_000;
    last_update_unix = 1_700_000_100;
  };
  outside = record {
    active_helper_regions = [];
    bundles_generated_24h = 12;
    successful_distributions_24h = 8;
    profile_freshness_hours = pos 3_000_000;
    helper_availability_score = pos 700_000;
    last_update_unix = 1_700_000_100;
  };
  protocols = [];
  release = record {
    latest_version = txt "v0.1.0";
    installer_downloads_24h = none;
    manifest_freshness_sec = 60;
    signature_status = SignatureStatus.ok;
    platform_artifacts = record { android = true; linux = true; windows = false; macos = false };
    last_update_unix = 1_700_000_000;
  };
  helper_nodes =
      (record {
        id = txt "n1";
        label = txt "Vienna 4";
        region_label = txt "EU";
        coords = (pos 16_370_000, pos 48_210_000);
        availability = HelperAvailability.up;
        last_update_unix = 1_700_000_000;
      })
      ∷ [];
  flows = [];
  activity = [];
}

small_regions :
    Indistinct
      (bucket_of (public_options none none))
      (threshold_of (public_options none none) (snapshot 20))
      small_region
      other_small_region
unfolding bucket_unix bucket_of threshold_of
small_regions = record { name = refl; bucket = refl; few = omega arith; few' = omega arith }

filter-SameButHidden_example :
    apply_privacy_filter
      (record (snapshot 20) { regions = big_region ∷ other_small_region ∷ [] })
      (public_options none none)
    ≡ apply_privacy_filter (snapshot 20) (public_options none none)
filter-SameButHidden_example =
    filter-SameButHidden (snapshot 20) none none (big_region ∷ other_small_region ∷ [])
      (same big_region (hidden {r = small_region} {s = other_small_region} small_regions done))

filter_idem_example :
    apply_privacy_filter
      (apply_privacy_filter (snapshot 20) (public_options (some 25) none))
      (public_options (some 25) none)
    ≡ apply_privacy_filter (snapshot 20) (public_options (some 25) none)
filter_idem_example = filter_idem (snapshot 20) (some 25) none
