-- ===== src/Dashboard/Live/NoLeak.antt =====
-- The refs of website/src/components/dashboard/LiveDashboard.tsx reach every timer, stream and
-- request that is still alive.
use shadownet_agent.Common.{
  ℕ, ◌≡◌, refl, sym, ap, ◌⊎◌, inl, inr, not, ◌&&◌, Option, none, some, [], find, ◌==◌,
  either_branch, option_branch, none_absurd, ◌∙◌, All-filter,
}
use shadownet_agent.Common.Text.{txt}
use shadownet_agent.Dashboard.Live.Events.{
  Event, set_live_mode, show_view, answered, failed, tick, message, stream_error, find_handle,
  load_succeeded, load_failed, on_error, handle, step, mounted, Reach, start, next,
}
use shadownet_agent.Dashboard.Live.{
  Config, Live, Request, Handle, Deps, close, stop_all, effect, deps_of, is_settled, clean_up,
  run_effect, commit_fuel, commit,
}
use shadownet_agent.Dashboard.Live.Held.{
  Abortable, NoLeak, close-Held, stop_all-Idle, load_once-NoLeak, start_poll-NoLeak,
  start_mode-NoLeak,
}

pub clean_up-NoLeak : (o : Option Deps) (s : Live) → NoLeak s → NoLeak (clean_up o s)
clean_up-NoLeak none s h = h
clean_up-NoLeak (some last) s h = (stop_all-Idle s h).leak

pub run_effect-NoLeak : (cfg : Config) (s : Live) → NoLeak s → NoLeak (run_effect cfg s)
unfolding run_effect effect
run_effect-NoLeak cfg s h =
    let cleaned = clean_up s.deps s in
    let idle = stop_all-Idle cleaned (clean_up-NoLeak s.deps s h) in
    let k =
      start_mode-NoLeak cfg s.live_mode (deps_of s)
        (record (stop_all cleaned) { error = none; snapshot = none })
        (record {
          leak = record {
            timers = idle.leak.timers;
            sources = idle.leak.sources;
            one = idle.leak.one;
            requests = idle.leak.requests;
          };
          timers = idle.timers;
          sources = idle.sources;
        }) in
    record { timers = k.timers; sources = k.sources; one = k.one; requests = k.requests }

pub commit-NoLeak : (cfg : Config) (s : Live) → NoLeak s → NoLeak (commit cfg s)
unfolding commit commit_fuel
commit-NoLeak cfg s h =
    let once = run_effect-NoLeak cfg s h in
    either_branch NoLeak (is_settled s) h (
      either_branch NoLeak (is_settled (run_effect cfg s)) once
        (run_effect-NoLeak cfg (run_effect cfg s) once))

on_error-NoLeak :
    (cfg : Config) (id : ℕ) (c : Handle) (s : Live)
    → NoLeak s
    → find_handle id s.sources ≡ some c
    → NoLeak (on_error cfg c s)
unfolding on_error
on_error-NoLeak cfg id c s h e =
    let closed = close-Held s.sse_ref s.sources h.sources in
    let t = no_timers h.one in
    start_poll-NoLeak cfg c.view c.threshold (txt "stream error; polling fallback")
      (record s { sources = close s.sse_ref s.sources; sse_ref = none })
      (record {
        leak = record {
          timers = h.timers;
          sources = closed;
          one = inr closed;
          requests = h.requests;
        };
        timers = t;
        sources = closed;
      })
  where
    no_timers : (s.timers ≡ []) ⊎ (s.sources ≡ []) → s.timers ≡ []
    no_timers (inl t) = t
    no_timers (inr k) = none_absurd (sym (ap (find_handle id) k) ∙ e)

pub handle-NoLeak :
    (cfg : Config) (event : Event) (s : Live) → NoLeak s → NoLeak (handle cfg event s)
unfolding handle load_succeeded load_failed
handle-NoLeak cfg (set_live_mode mode) s h = record {
  timers = h.timers;
  sources = h.sources;
  one = h.one;
  requests = h.requests;
}
handle-NoLeak cfg (show_view view) s h = record {
  timers = h.timers;
  sources = h.sources;
  one = h.one;
  requests = h.requests;
}
handle-NoLeak cfg (answered id snap) s h =
    option_branch NoLeak (find (λ (r : Request). r.id == id && not r.aborted) s.requests) (λ e. h)
      (λ r e. record {
        timers = h.timers;
        sources = h.sources;
        one = h.one;
        requests =
            All-filter (Abortable s.abort_ref) (λ (q : Request). not (q.id == r.id)) s.requests
              h.requests;
      })
handle-NoLeak cfg (failed id msg) s h =
    option_branch NoLeak (find (λ (r : Request). r.id == id) s.requests) (λ e. h)
      (λ r e. record {
        timers = h.timers;
        sources = h.sources;
        one = h.one;
        requests =
            All-filter (Abortable s.abort_ref) (λ (q : Request). not (q.id == r.id)) s.requests
              h.requests;
      })
handle-NoLeak cfg (tick id) s h =
    option_branch NoLeak (find_handle id s.timers) (λ e. h)
      (λ t e. load_once-NoLeak cfg t.view t.threshold (txt "poll refresh") s h)
handle-NoLeak cfg (message id snap) s h =
    option_branch NoLeak (find_handle id s.sources) (λ e. h)
      (λ c e. record { timers = h.timers; sources = h.sources; one = h.one; requests = h.requests })
handle-NoLeak cfg (stream_error id) s h =
    option_branch NoLeak (find_handle id s.sources) (λ e. h) (λ c e. on_error-NoLeak cfg id c s h e)

-- In every reachable state the refs hold the one running timer or the one open stream, never both,
-- and any request that was not aborted: nothing outlives the next clean-up.
pub Reach-NoLeak : (cfg : Config) (s : Live) → Reach cfg s → NoLeak s
unfolding step
Reach-NoLeak cfg _ (start view) =
    commit-NoLeak cfg (mounted view)
      (record { timers = refl; sources = refl; one = inl refl; requests = tt })
Reach-NoLeak cfg _ (next {s} event r) =
    commit-NoLeak cfg (handle cfg event s) (handle-NoLeak cfg event s (Reach-NoLeak cfg s r))
