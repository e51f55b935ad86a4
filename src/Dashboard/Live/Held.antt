-- ===== src/Dashboard/Live/Held.antt =====
-- What starting and stopping a feed does to the timers, streams and requests that the refs of
-- website/src/components/dashboard/LiveDashboard.tsx hold.
use shadownet_agent.Common.{
  ℕ, ◌≡◌, refl, ap, ◌⊎◌, inl, inr, arith, true, Option, none, some, List, [], ◌∷◌, either_branch,
  All,
}
use shadownet_agent.Common.Text.{Text, txt}
use shadownet_agent.Dashboard.Live.{
  Config, Live, LiveMode, Request, Handle, Deps, close, abort_request, abort, stop_all, load_once,
  set_interval, start_poll, open_source, start_sse, start_auto, start_mode, set_off,
}
use shadownet_agent.Dashboard.Types.{DashboardView}

-- The list holds what the ref holds and nothing else.
abbrev pub Held : Option ℕ → List Handle → Type 0
Held none hs = hs ≡ []
Held (some id) hs = (h : Handle) × ((h.id ≡ id) × (hs ≡ h ∷ []))

-- A request that was not aborted can be, through the ref.
abbrev pub Abortable : Option ℕ → Request → Type 0
Abortable ref r = (r.aborted ≡ true) ⊎ (ref ≡ some r.id)

-- The refs hold all that is alive, and never a timer together with a stream.
pub record NoLeak (s : Live) : Type 0 where
  pub timers : Held s.poll_timer_ref s.timers
  pub sources : Held s.sse_ref s.sources
  pub one : (s.timers ≡ []) ⊎ (s.sources ≡ [])
  pub requests : All (Abortable s.abort_ref) s.requests

pub close-Held : (ref : Option ℕ) (hs : List Handle) → Held ref hs → close ref hs ≡ []
unfolding close
close-Held none hs h = h
close-Held (some id) hs (h, (e, k)) = rw k (ground arith)

abort-Abortable :
    (ref new : Option ℕ) (rs : List Request)
    → All (Abortable ref) rs
    → All (Abortable new) (abort ref rs)
unfolding abort
abort-Abortable none new [] h = tt
abort-Abortable none new (r ∷ rs) (p, h) = (inl (ground arith), abort-Abortable none new rs h)
abort-Abortable (some id) new [] h = tt
abort-Abortable (some id) new (r ∷ rs) (p, h) =
    (inl (abort_request_lem id r p), abort-Abortable (some id) new rs h)
  where
    abort_request_lem :
        (id : ℕ) (r : Request) → Abortable (some id) r → (abort_request id r).aborted ≡ true
    abort_request_lem id r p = ground arith

-- Nothing is alive but aborted requests.
pub record Idle (s : Live) : Type 0 where
  pub leak : NoLeak s
  pub timers : s.timers ≡ []
  pub sources : s.sources ≡ []

pub stop_all-Idle : (s : Live) → NoLeak s → Idle (stop_all s)
unfolding stop_all
stop_all-Idle s h =
    let t = close-Held s.poll_timer_ref s.timers h.timers in
    let c = close-Held s.sse_ref s.sources h.sources in
    record {
      leak = record {
        timers = t;
        sources = c;
        one = inl t;
        requests = abort-Abortable s.abort_ref none s.requests h.requests;
      };
      timers = t;
      sources = c;
    }

pub load_once-NoLeak :
    (cfg : Config) (view : DashboardView) (threshold : ℕ) (reason : Text) (s : Live)
    → NoLeak s
    → NoLeak (load_once cfg view threshold reason s)
unfolding load_once
load_once-NoLeak cfg view threshold reason s h =
    either_branch NoLeak cfg.can_use_snapshot_url
      (record {
        timers = h.timers;
        sources = h.sources;
        one = h.one;
        requests = (inr refl, abort-Abortable s.abort_ref (some s.next_id) s.requests h.requests);
      })
      (record { timers = h.timers; sources = h.sources; one = h.one; requests = h.requests })

load_once-Idle :
    (cfg : Config) (view : DashboardView) (threshold : ℕ) (reason : Text) (s : Live)
    → Idle s
    → Idle (load_once cfg view threshold reason s)
unfolding load_once
load_once-Idle cfg view threshold reason s h = record {
  leak = load_once-NoLeak cfg view threshold reason s h.leak;
  timers = either_branch (λ (t : Live). t.timers ≡ []) cfg.can_use_snapshot_url h.timers h.timers;
  sources =
      either_branch (λ (t : Live). t.sources ≡ []) cfg.can_use_snapshot_url h.sources h.sources;
}

pub start_poll-NoLeak :
    (cfg : Config) (view : DashboardView) (threshold : ℕ) (reason : Text) (s : Live)
    → Idle s
    → NoLeak (start_poll cfg view threshold reason s)
unfolding start_poll set_interval
start_poll-NoLeak cfg view threshold reason s h =
    let t = load_once cfg view threshold reason s in
    let k = load_once-Idle cfg view threshold reason s h in
    let new : Handle = record { id = t.next_id; view = view; threshold = threshold } in
    record {
      timers = (new, (refl, ap (λ (hs : List Handle). new ∷ hs) k.timers));
      sources = k.leak.sources;
      one = inr k.sources;
      requests = k.leak.requests;
    }

start_sse-NoLeak :
    (cfg : Config) (view : DashboardView) (threshold : ℕ) (reason : Text) (s : Live)
    → Idle s
    → NoLeak (start_sse cfg view threshold reason s)
unfolding start_sse open_source
start_sse-NoLeak cfg view threshold reason s h =
    let new : Handle = record { id = s.next_id; view = view; threshold = threshold } in
    either_branch NoLeak cfg.can_use_stream
      (either_branch NoLeak (cfg.stream_opens view threshold)
        (record {
          timers = h.leak.timers;
          sources = (new, (refl, ap (λ (hs : List Handle). new ∷ hs) h.sources));
          one = inl h.timers;
          requests = h.leak.requests;
        })
        (start_poll-NoLeak cfg view threshold (txt "stream init failed; polling") s h))
      (start_poll-NoLeak cfg view threshold (txt "stream unavailable; polling") s h)

abbrev same_refs : (note : Text) (s : Live) → NoLeak s → NoLeak (set_off note s)
same_refs note s h = record {
  timers = h.timers;
  sources = h.sources;
  one = h.one;
  requests = h.requests;
}

pub start_mode-NoLeak :
    (cfg : Config) (mode : LiveMode) (d : Deps) (s : Live)
    → Idle s
    → NoLeak (start_mode cfg mode d s)
unfolding start_mode start_auto
start_mode-NoLeak cfg LiveMode.off d s h = same_refs (txt "live updates disabled") s h.leak
start_mode-NoLeak cfg LiveMode.poll d s h =
    start_poll-NoLeak cfg d.view d.threshold (txt "polling") s h
start_mode-NoLeak cfg LiveMode.auto d s h =
    either_branch NoLeak cfg.can_use_stream
      (start_sse-NoLeak cfg d.view d.threshold (txt "streaming") s h)
      (either_branch NoLeak cfg.can_use_snapshot_url
        (start_poll-NoLeak cfg d.view d.threshold (txt "polling") s h)
        (same_refs (txt "no live feed configured") s h.leak))
