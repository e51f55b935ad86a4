-- ===== src/Dashboard/Filters.antt =====
-- The controls of the dashboard, website/src/components/dashboard/DashboardFilters.tsx, and what
-- SummaryCards.tsx, ProtocolHealthPanel.tsx and ConnectionFlowLayer.tsx there show of a snapshot.
use shadownet_agent.Common.Int.{lebℤ}
use shadownet_agent.Common.Sort.{sort}
use shadownet_agent.Common.{
  ℕ, ◌+◌, Bool, true, false, not, Option, none, some, List, [], ◌∷◌, filter, length, if◌then◌else◌,
}
use shadownet_agent.Dashboard.Live.{LiveMode}
use shadownet_agent.Dashboard.Panels.{TimeWindow, hour_1, count_by_status}
use shadownet_agent.Dashboard.Types.{
  ActivitySeverity, ConnectionFlow, DashboardSnapshot, DashboardView, HelperAvailability,
  HelperNode, ProtocolHealth, ProtocolId, reality, hysteria2, tuic, shadowtls, dns_tunnel,
}

-- DashboardFiltersState; "all" is `none`.
pub record FiltersState : Type 0 where
  pub privacy_mode : Bool
  pub show_helpers : Bool
  pub show_flows : Bool
  pub live_mode : LiveMode
  pub time_window : TimeWindow
  pub protocol : Option ProtocolId
  pub severity : Option ActivitySeverity

abbrev pub is_iran : DashboardView → Bool
is_iran DashboardView.iran = true
is_iran _ = false

-- The filters with which LiveDashboard starts.
unfoldable pub first_filters : DashboardView → FiltersState
first_filters view = record {
  privacy_mode = true;
  show_helpers = true;
  show_flows = not (is_iran view);
  live_mode = LiveMode.auto;
  time_window = hour_1;
  protocol = none;
  severity = none;
}

pub data Toggle : Type 0 where
  privacy helpers flows : Toggle

-- toggleBool
unfoldable pub toggle_bool : Toggle → FiltersState → FiltersState
toggle_bool privacy v = record v { privacy_mode = not v.privacy_mode }
toggle_bool helpers v = record v { show_helpers = not v.show_helpers }
toggle_bool flows v = record v { show_flows = not v.show_flows }

unfoldable pub set_time_window : TimeWindow → FiltersState → FiltersState
set_time_window window v = record v { time_window = window }

unfoldable pub set_protocol : Option ProtocolId → FiltersState → FiltersState
set_protocol protocol v = record v { protocol = protocol }

unfoldable pub set_severity : Option ActivitySeverity → FiltersState → FiltersState
set_severity severity v = record v { severity = severity }

unfoldable pub choose_live_mode : LiveMode → FiltersState → FiltersState
choose_live_mode mode v = record v { live_mode = mode }

-- blockedCount
unfoldable pub blocked_regions : DashboardSnapshot → ℕ
blocked_regions snap =
    let counts = count_by_status snap.regions in counts.blocked_count + counts.unstable_count

abbrev pub is_up : HelperAvailability → Bool
is_up HelperAvailability.up = true
is_up _ = false

-- helperUp
unfoldable pub helper_up : DashboardSnapshot → ℕ
helper_up snap = length (filter (λ (n : HelperNode). is_up n.availability) snap.helper_nodes)

abbrev pub better : ProtocolHealth → ProtocolHealth → Bool
better a b = lebℤ b.success_rate a.success_rate

abbrev pub leader_of : List ProtocolHealth → ProtocolId
leader_of [] = reality
leader_of (p ∷ more) = p.protocol

-- protocolLeader
unfoldable pub protocol_leader : DashboardSnapshot → ProtocolId
protocol_leader snap = leader_of (sort better snap.protocols)

unfoldable pub same_protocol : ProtocolId → ProtocolId → Bool
same_protocol reality reality = true
same_protocol hysteria2 hysteria2 = true
same_protocol tuic tuic = true
same_protocol shadowtls shadowtls = true
same_protocol dns_tunnel dns_tunnel = true
same_protocol _ _ = false

-- The items of ProtocolHealthPanelInner.
unfoldable pub protocol_items : Option ProtocolId → DashboardSnapshot → List ProtocolHealth
protocol_items none snap = snap.protocols
protocol_items (some protocol) snap =
    filter (λ (p : ProtocolHealth). same_protocol p.protocol protocol) snap.protocols

-- The lines of ConnectionFlowLayer and the markers of the map.
unfoldable pub shown_flows : FiltersState → DashboardSnapshot → List ConnectionFlow
shown_flows v snap = if v.show_flows then snap.flows else []

unfoldable pub shown_helpers : FiltersState → DashboardSnapshot → List HelperNode
shown_helpers v snap = if v.show_helpers then snap.helper_nodes else []
