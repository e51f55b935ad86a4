-- ===== src/Dashboard/Live/Events.antt =====
-- The callbacks of website/src/components/dashboard/LiveDashboard.tsx, and the states they reach.
use shadownet_agent.Common.{ℕ, not, ◌&&◌, Option, none, some, List, [], filter, find, ◌==◌}
use shadownet_agent.Common.Text.{Text, txt}
use shadownet_agent.Dashboard.Live.{
  Config, Live, LiveMode, StatusMode, Request, Handle, close, load_once, start_poll, commit,
}
use shadownet_agent.Dashboard.Types.{DashboardView, DashboardSnapshot}

pub data Event : Type 0 where
  set_live_mode : LiveMode → Event
  show_view : DashboardView → Event
  answered : ℕ → DashboardSnapshot → Event
  failed : ℕ → Text → Event
  tick : ℕ → Event
  message : ℕ → DashboardSnapshot → Event
  stream_error : ℕ → Event

abbrev pub find_handle : ℕ → List Handle → Option Handle
find_handle id hs = find (λ (h : Handle). h.id == id) hs

abbrev pub without : ℕ → List Request → List Request
without id rs = filter (λ (r : Request). not (r.id == id)) rs

-- The continuation of loadOnce after an answer, and its `catch`.
unfoldable pub load_succeeded : Request → DashboardSnapshot → Live → Live
load_succeeded r snap s = record s {
  requests = without r.id s.requests;
  snapshot = some snap;
  error = none;
  status = record { mode = StatusMode.poll; note = r.reason };
}

unfoldable pub load_failed : Request → Text → Live → Live
load_failed r msg s = record s {
  requests = without r.id s.requests;
  error = some msg;
  snapshot = none;
  status = record { mode = StatusMode.off; note = txt "live feed unavailable" };
}

-- `onError` of the stream.
unfoldable pub on_error : Config → Handle → Live → Live
on_error cfg c s =
    start_poll cfg c.view c.threshold (txt "stream error; polling fallback")
      (record s { sources = close s.sse_ref s.sources; sse_ref = none })

-- The browser calls back only for what it still holds: an answer comes to a request that was not
-- aborted, a failure to any request, a tick to a running timer, a message to an open source.
unfoldable pub handle : Config → Event → Live → Live
handle cfg (set_live_mode mode) s = record s { live_mode = mode }
handle cfg (show_view view) s = record s { view = view }
handle cfg (answered id snap) s =
    elim (find (λ (r : Request). r.id == id && not r.aborted) s.requests) [
      | none ↦ s
      | some r ↦ load_succeeded r snap s
    ]
handle cfg (failed id msg) s = elim (find (λ (r : Request). r.id == id) s.requests) [
  | none ↦ s
  | some r ↦ load_failed r msg s
]
handle cfg (tick id) s = elim (find_handle id s.timers) [
  | none ↦ s
  | some t ↦ load_once cfg t.view t.threshold (txt "poll refresh") s
]
handle cfg (message id snap) s = elim (find_handle id s.sources) [
  | none ↦ s
  | some c ↦ record s { snapshot = some snap; error = none }
]
handle cfg (stream_error id) s = elim (find_handle id s.sources) [
  | none ↦ s
  | some c ↦ on_error cfg c s
]

unfoldable pub step : Config → Event → Live → Live
step cfg event s = commit cfg (handle cfg event s)

abbrev pub mounted : DashboardView → Live
mounted view = record {
  view = view;
  live_mode = LiveMode.auto;
  snapshot = none;
  status = record { mode = StatusMode.off; note = txt "not connected" };
  error = none;
  abort_ref = none;
  sse_ref = none;
  poll_timer_ref = none;
  requests = [];
  sources = [];
  timers = [];
  next_id = 1;
  deps = none;
}

-- The states between events.
pub data Reach (cfg : Config) : Live → Type 0 where
  start : (view : DashboardView) → Reach cfg (commit cfg (mounted view))
  next : {s : Live} (event : Event) → Reach cfg s → Reach cfg (step cfg event s)
