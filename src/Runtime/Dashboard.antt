-- ===== src/Runtime/Dashboard.antt =====
-- The state of website/src/components/dashboard/RuntimeDashboard.tsx: what it holds of the runtime,
-- and its callbacks. The effect runs once, at the start; its timer and its stream only call back.
use shadownet_agent.Common.Pairwise.{Pairwise}
use shadownet_agent.Common.Sort.{IsSorted}
use shadownet_agent.Common.Text.{Text, txt}
use shadownet_agent.Common.{ℕ, ◌≤◌, arith, Option, none, some, List, [], ◌∷◌, length}
use shadownet_agent.Runtime.Events.Merge.{Apart, merge_events_lem, Anything, All-Anything}
use shadownet_agent.Runtime.Events.{RuntimeEvent, UiStatus, map_status, newer, merge_events}

pub record Failure : Type 0 where
  pub timestamp : ℕ
  pub reason : Text

pub record RuntimeSnapshot : Type 0 where
  pub status : Text
  pub active_profile : Text
  pub latency_ms : ℕ
  pub last_updated : ℕ
  pub failures : List Failure
  pub mode : Text

module _ (M : Type 0) where
  pub record Dashboard : Type 0 where
    pub state : Option RuntimeSnapshot
    pub events : List (RuntimeEvent M)
    pub message : Option Text

  -- The two requests of the start, the stream, and the timer's request.
  pub data Callback : Type 0 where
    loaded : RuntimeSnapshot → List (RuntimeEvent M) → Callback
    load_failed : Text → Callback
    received : RuntimeEvent M → Callback
    unreadable : Callback
    stream_lost : Callback
    refreshed : RuntimeSnapshot → Callback
    refresh_failed : Text → Callback

  abbrev pub opened : Dashboard
  opened = record { state = none; events = []; message = none }

  unfoldable pub call_back : Callback → Dashboard → Dashboard
  call_back (loaded next_state next_events) s = record {
    state = some next_state;
    events = merge_events s.events next_events;
    message = none;
  }
  call_back (load_failed msg) s = record { state = none; events = []; message = some msg }
  call_back (received ev) s = record s { events = merge_events s.events (ev ∷ []); message = none }
  call_back unreadable s = record s { message = some (txt "event stream parse failed") }
  call_back stream_lost s = record s { message = some (txt "event stream disconnected") }
  call_back (refreshed next_state) s = record s { state = some next_state; message = none }
  call_back (refresh_failed msg) s = record s { state = none; message = some msg }

  pub data Shows : Dashboard → Type 0 where
    at_start : Shows opened
    after : {s : Dashboard} (c : Callback) → Shows s → Shows (call_back c s)

-- uiStatus
unfoldable pub ui_status : (Text → Text) → Option RuntimeSnapshot → UiStatus
ui_status to_lower none = map_status to_lower (txt "disconnected")
ui_status to_lower (some s) = map_status to_lower s.status

module _ {M : Type 0} where
  abbrev pub IsTidy : List (RuntimeEvent M) → Type 0
  IsTidy events = (length events ≤ 120) × IsSorted newer events × Pairwise Apart events

  merge_events-IsTidy :
      (prev incoming : List (RuntimeEvent M)) → IsTidy (merge_events prev incoming)
  merge_events-IsTidy prev incoming =
      let (few, sorted, apart, _) =
        merge_events_lem Anything prev incoming (All-Anything prev) (All-Anything incoming) in
      (few, sorted, apart)

  -- Whatever has called back, the dashboard holds at most 120 events, from the newest to the oldest, with
  -- different keys.
  pub Shows-IsTidy : (s : Dashboard M) → Shows M s → IsTidy s.events
  unfolding call_back
  Shows-IsTidy _ at_start = (omega arith, tt, tt)
  Shows-IsTidy _ (after {s} (loaded st evs) h) = merge_events-IsTidy s.events evs
  Shows-IsTidy _ (after {s} (load_failed msg) h) = (omega arith, tt, tt)
  Shows-IsTidy _ (after {s} (received ev) h) = merge_events-IsTidy s.events (ev ∷ [])
  Shows-IsTidy _ (after {s} unreadable h) = Shows-IsTidy s h
  Shows-IsTidy _ (after {s} stream_lost h) = Shows-IsTidy s h
  Shows-IsTidy _ (after {s} (refreshed st) h) = Shows-IsTidy s h
  Shows-IsTidy _ (after {s} (refresh_failed msg) h) = Shows-IsTidy s h
