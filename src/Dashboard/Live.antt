-- ===== src/Dashboard/Live.antt =====
-- The feed of website/src/components/dashboard/LiveDashboard.tsx as a state machine: React state
-- and refs, what the browser holds for them (requests, event sources, interval timers), the
-- effect with its dependencies, and one handler per callback.
pub mod Events
pub mod Held
pub mod NoLeak
pub mod Settling
pub mod Threshold
pub mod Feed
use shadownet_agent.Common.{
  ℕ, zero, suc, ◌+◌, Bool, true, false, not, ◌&&◌, Option, none, some, List, [], ◌∷◌, map, filter,
  find, ◌==◌, if◌then◌else◌,
}
use shadownet_agent.Common.Text.{Text, txt}
use shadownet_agent.Dashboard.Types.{DashboardView, DashboardSnapshot}

pub data LiveMode : Type 0 where
  auto poll off : LiveMode

pub data StatusMode : Type 0 where
  poll sse off : StatusMode

pub record Status : Type 0 where
  pub mode : StatusMode
  pub note : Text

-- A request in flight, with the note of its success; its controller is its id.
pub record Request : Type 0 where
  pub id : ℕ
  pub view : DashboardView
  pub threshold : ℕ
  pub reason : Text
  pub aborted : Bool

-- A running interval timer or an open event source, with what its callbacks have captured.
pub record Handle : Type 0 where
  pub id : ℕ
  pub view : DashboardView
  pub threshold : ℕ

-- What the effect depends on, less the two constants of the build.
pub record Deps : Type 0 where
  pub view : DashboardView
  pub live_mode : LiveMode
  pub threshold : ℕ

-- The configured addresses, and whether opening the stream does not throw.
pub record Config : Type 0 where
  pub can_use_stream : Bool
  pub can_use_snapshot_url : Bool
  pub stream_opens : DashboardView → ℕ → Bool

pub record Live : Type 0 where
  pub view : DashboardView
  pub live_mode : LiveMode
  pub snapshot : Option DashboardSnapshot
  pub status : Status
  pub error : Option Text
  pub abort_ref : Option ℕ
  pub sse_ref : Option ℕ
  pub poll_timer_ref : Option ℕ
  pub requests : List Request
  pub sources : List Handle
  pub timers : List Handle
  pub next_id : ℕ
  pub deps : Option Deps

-- `snapshot?.privacyThreshold ?? 20`
abbrev pub privacy_threshold : Option DashboardSnapshot → ℕ
privacy_threshold none = 20
privacy_threshold (some snap) = snap.privacy_threshold

-- `clearInterval` and `close` of what a ref holds.
unfoldable pub close : Option ℕ → List Handle → List Handle
close none hs = hs
close (some id) hs = filter (λ (h : Handle). not (h.id == id)) hs

-- `controller.abort()`: the request is rejected later.
abbrev pub abort_request : ℕ → Request → Request
abort_request id r = if r.id == id then record r { aborted = true } else r

unfoldable pub abort : Option ℕ → List Request → List Request
abort none rs = rs
abort (some id) rs = map (abort_request id) rs

unfoldable pub stop_all : Live → Live
stop_all s = record s {
  timers = close s.poll_timer_ref s.timers;
  poll_timer_ref = none;
  requests = abort s.abort_ref s.requests;
  abort_ref = none;
  sources = close s.sse_ref s.sources;
  sse_ref = none;
}

-- loadOnce, up to the call that waits: its continuation is `answered` or `failed`.
unfoldable pub load_once : Config → DashboardView → ℕ → Text → Live → Live
load_once cfg view threshold reason s = elim cfg.can_use_snapshot_url [
  | false ↦ record s {
    error = some (txt "snapshot url not configured");
    status = record { mode = StatusMode.off; note = txt "no live feed configured" };
    snapshot = none;
  }
  | true ↦ record s {
    requests =
        record {
          id = s.next_id;
          view = view;
          threshold = threshold;
          reason = reason;
          aborted = false;
        }
        ∷ abort s.abort_ref s.requests;
    abort_ref = some s.next_id;
    next_id = suc s.next_id;
  }
]

unfoldable pub set_interval : DashboardView → ℕ → Live → Live
set_interval view threshold s = record s {
  timers = record { id = s.next_id; view = view; threshold = threshold } ∷ s.timers;
  poll_timer_ref = some s.next_id;
  next_id = suc s.next_id;
}

unfoldable pub start_poll : Config → DashboardView → ℕ → Text → Live → Live
start_poll cfg view threshold reason s =
    set_interval view threshold (load_once cfg view threshold reason s)

unfoldable pub open_source : DashboardView → ℕ → Text → Live → Live
open_source view threshold reason s = record s {
  sources = record { id = s.next_id; view = view; threshold = threshold } ∷ s.sources;
  sse_ref = some s.next_id;
  next_id = suc s.next_id;
  status = record { mode = StatusMode.sse; note = reason };
}

unfoldable pub start_sse : Config → DashboardView → ℕ → Text → Live → Live
start_sse cfg view threshold reason s = elim cfg.can_use_stream [
  | false ↦ start_poll cfg view threshold (txt "stream unavailable; polling") s
  | true ↦ elim (cfg.stream_opens view threshold) [
    | true ↦ open_source view threshold reason s
    | false ↦ start_poll cfg view threshold (txt "stream init failed; polling") s
  ]
]

abbrev pub set_off : Text → Live → Live
set_off note s = record s { status = record { mode = StatusMode.off; note = note } }

unfoldable pub start_auto : Config → Deps → Live → Live
start_auto cfg d s = elim cfg.can_use_stream [
  | true ↦ start_sse cfg d.view d.threshold (txt "streaming") s
  | false ↦ elim cfg.can_use_snapshot_url [
    | true ↦ start_poll cfg d.view d.threshold (txt "polling") s
    | false ↦ set_off (txt "no live feed configured") s
  ]
]

-- What the effect starts, by the mode.
unfoldable pub start_mode : Config → LiveMode → Deps → Live → Live
start_mode cfg LiveMode.off d s = set_off (txt "live updates disabled") s
start_mode cfg LiveMode.poll d s = start_poll cfg d.view d.threshold (txt "polling") s
start_mode cfg LiveMode.auto d s = start_auto cfg d s

-- The body of the effect. Its clean-up is `stop_all` as well.
unfoldable pub effect : Config → Deps → Live → Live
effect cfg d s =
    start_mode cfg d.live_mode d (record (stop_all s) { error = none; snapshot = none })

abbrev pub deps_of : Live → Deps
deps_of s = record {
  view = s.view;
  live_mode = s.live_mode;
  threshold = privacy_threshold s.snapshot;
}

unfoldable pub same_view : DashboardView → DashboardView → Bool
same_view DashboardView.global DashboardView.global = true
same_view DashboardView.iran DashboardView.iran = true
same_view DashboardView.protocols DashboardView.protocols = true
same_view DashboardView.releases DashboardView.releases = true
same_view _ _ = false

unfoldable pub same_mode : LiveMode → LiveMode → Bool
same_mode LiveMode.auto LiveMode.auto = true
same_mode LiveMode.poll LiveMode.poll = true
same_mode LiveMode.off LiveMode.off = true
same_mode _ _ = false

abbrev pub same_deps : Option Deps → Deps → Bool
same_deps none d = false
same_deps (some last) d =
    same_view last.view d.view
    && same_mode last.live_mode d.live_mode
    && (last.threshold == d.threshold)

-- No dependency has changed since the effect last ran.
unfoldable pub is_settled : Live → Bool
is_settled s = same_deps s.deps (deps_of s)

-- The clean-up of the effect's last run.
abbrev pub clean_up : Option Deps → Live → Live
clean_up none s = s
clean_up (some last) s = stop_all s

-- One run of the effect after a render: clean-up of the last run, then the body.
unfoldable pub run_effect : Config → Live → Live
run_effect cfg s = record (effect cfg (deps_of s) (clean_up s.deps s)) { deps = some (deps_of s) }

-- React renders and runs the effect until no dependency changes.
unfoldable pub commit_fuel : Config → ℕ → Live → Live
commit_fuel cfg zero s = s
commit_fuel cfg (suc n) s =
    let rest = commit_fuel cfg n (run_effect cfg s) in
    elim (is_settled s) [ true ↦ s | false ↦ rest ]

unfoldable pub commit : Config → Live → Live
commit cfg s = commit_fuel cfg 2 s
