-- ===== src/Dashboard/Live/Feed/Refined.antt =====
-- Each event of website/src/components/dashboard/LiveDashboard.tsx does to the feed what the abstract view of
-- it allows.
use shadownet_agent.Common.{
  ℕ, ◌≡◌, refl, sym, ap, ◌∙◌, inl, inr, true, not, ◌&&◌, none, some, List, [], ◌∷◌, find, ◌==◌,
  Option-cases, either_branch, none_absurd, ◌⊎◌,
}
use shadownet_agent.Common.Text.{Text, txt}
use shadownet_agent.Dashboard.Live.Events.{
  Event, set_live_mode, show_view, answered, failed, tick, message, stream_error, find_handle,
  load_succeeded, load_failed, on_error, handle, step, Reach,
}
use shadownet_agent.Dashboard.Live.Feed.{
  polling, streaming, feed_from, spec_of, Changeless, Next, stay, answered_anew, streamed_anew,
  fell_back,
}
use shadownet_agent.Dashboard.Live.Held.{NoLeak}
use shadownet_agent.Dashboard.Live.NoLeak.{handle-NoLeak, Reach-NoLeak}
use shadownet_agent.Dashboard.Live.Settling.{start_poll-Keeps}
use shadownet_agent.Dashboard.Live.Threshold.{IsCalm, Reach-IsCalm}
use shadownet_agent.Dashboard.Live.{
  Config, Live, LiveMode, Request, Handle, Deps, privacy_threshold, close, deps_of, same_view,
  same_mode, same_deps, is_settled, load_once, start_poll, commit,
}
use shadownet_agent.Dashboard.Types.{DashboardView, DashboardSnapshot}
use shadownet_agent.Dashboard.Live.Feed.Choosing.{
  moves, settles, calm_again, foreign, set_live_mode-Next, show_view-Next,
}

unmoved :
    (cfg : Config) (event : Event) (s : Live)
    → NoLeak s
    → IsCalm s
    → Changeless event (spec_of s)
    → Next cfg event (spec_of s) (spec_of (commit cfg s))
unmoved cfg event s h calm c = settles cfg event s s (spec_of s) h refl calm.0 (stay c)

answered-Next :
    (cfg : Config) (id : ℕ) (snap : DashboardSnapshot) (s : Live)
    → NoLeak s
    → IsCalm s
    → Next cfg (answered id snap) (spec_of s) (spec_of (step cfg (answered id snap) s))
unfolding step handle load_succeeded is_settled
answered-Next cfg id snap s h calm =
    elim (Option-cases (find (λ (r : Request). r.id == id && not r.aborted) s.requests)) [
      | inl e ↦ rw (e, handle) (unmoved cfg (answered id snap) s h calm tt)
      | inr (r, e) ↦
          rw (e, handle)
            (moves cfg (answered id snap) s (load_succeeded r snap s) (spec_of s)
              (rw (e, handle) at (handle-NoLeak cfg (answered id snap) s h)) refl (λ t. stay tt)
              (λ t. answered_anew id snap (foreign s snap.privacy_threshold calm t)))
    ]

message-Next :
    (cfg : Config) (id : ℕ) (snap : DashboardSnapshot) (s : Live)
    → NoLeak s
    → IsCalm s
    → Next cfg (message id snap) (spec_of s) (spec_of (step cfg (message id snap) s))
unfolding step handle is_settled
message-Next cfg id snap s h calm = elim (Option-cases (find_handle id s.sources)) [
  | inl e ↦ rw (e, handle) (unmoved cfg (message id snap) s h calm tt)
  | inr (c, e) ↦
      rw (e, handle)
        (moves cfg (message id snap) s (record s { snapshot = some snap; error = none }) (spec_of s)
          (rw (e, handle) at (handle-NoLeak cfg (message id snap) s h)) refl (λ t. stay tt)
          (λ t. streamed_anew id snap (foreign s snap.privacy_threshold calm t)))
]

failed-Next :
    (cfg : Config) (id : ℕ) (msg : Text) (s : Live)
    → NoLeak s
    → IsCalm s
    → Next cfg (failed id msg) (spec_of s) (spec_of (step cfg (failed id msg) s))
unfolding step handle load_failed is_settled
failed-Next cfg id msg s h calm =
    elim (Option-cases (find (λ (r : Request). r.id == id) s.requests)) [
      | inl e ↦ rw (e, handle) (unmoved cfg (failed id msg) s h calm tt)
      | inr (r, e) ↦
          rw (e, handle)
            (settles cfg (failed id msg) s (load_failed r msg s) (spec_of s)
              (rw (e, handle) at (handle-NoLeak cfg (failed id msg) s h)) refl
              (calm_again s 20 calm refl) (stay tt))
    ]

load_once-is_settled :
    (cfg : Config) (view : DashboardView) (threshold : ℕ) (reason : Text) (s : Live)
    → IsCalm s
    → is_settled (load_once cfg view threshold reason s) ≡ true
unfolding load_once is_settled
load_once-is_settled cfg view threshold reason s calm =
    either_branch (λ (t : Live). is_settled t ≡ true) cfg.can_use_snapshot_url calm.0
      (calm_again s 20 calm refl)

spec_of-load_once :
    (cfg : Config) (view : DashboardView) (threshold : ℕ) (reason : Text) (s : Live)
    → spec_of (load_once cfg view threshold reason s) ≡ spec_of s
unfolding load_once
spec_of-load_once cfg view threshold reason s =
    either_branch (λ (t : Live). spec_of t ≡ spec_of s) cfg.can_use_snapshot_url refl refl

tick-Next :
    (cfg : Config) (id : ℕ) (s : Live)
    → NoLeak s
    → IsCalm s
    → Next cfg (tick id) (spec_of s) (spec_of (step cfg (tick id) s))
unfolding step handle
tick-Next cfg id s h calm = elim (Option-cases (find_handle id s.timers)) [
  | inl e ↦ rw (e, handle) (unmoved cfg (tick id) s h calm tt)
  | inr (t, e) ↦
      rw (e, handle)
        (settles cfg (tick id) s (load_once cfg t.view t.threshold (txt "poll refresh") s)
          (spec_of s) (rw (e, handle) at (handle-NoLeak cfg (tick id) s h))
          (spec_of-load_once cfg t.view t.threshold (txt "poll refresh") s)
          (load_once-is_settled cfg t.view t.threshold (txt "poll refresh") s calm) (stay tt))
]

stream_feed :
    (id : ℕ) (c : Handle) (ts cs : List Handle)
    → (ts ≡ []) ⊎ (cs ≡ [])
    → find_handle id cs ≡ some c
    → feed_from ts cs ≡ streaming
stream_feed id c ts [] one e = none_absurd e
stream_feed id c ts (d ∷ cs) (inl k) e = ap (λ (l : List Handle). feed_from l (d ∷ cs)) k
stream_feed id c ts (d ∷ cs) (inr k) e = none_absurd (sym (ap (find_handle id) k) ∙ e)

stream_error-Next :
    (cfg : Config) (id : ℕ) (s : Live)
    → NoLeak s
    → IsCalm s
    → Next cfg (stream_error id) (spec_of s) (spec_of (step cfg (stream_error id) s))
unfolding step handle on_error start_poll is_settled shadownet_agent.Dashboard.Live.set_interval
stream_error-Next cfg id s h calm = elim (Option-cases (find_handle id s.sources)) [
  | inl e ↦ rw (e, handle) (unmoved cfg (stream_error id) s h calm tt)
  | inr (c, e) ↦
      let closed = record s { sources = close s.sse_ref s.sources; sse_ref = none } in
      let reason = txt "stream error; polling fallback" in
      let k = start_poll-Keeps cfg c.view c.threshold reason closed in
      rw (e, handle)
        (settles cfg (stream_error id) s (on_error cfg c s) (record (spec_of s) { feed = polling })
          (rw (e, handle) at (handle-NoLeak cfg (stream_error id) s h))
          (λ i. record { view = k.view i; mode = k.live_mode i; feed = polling })
          (load_once-is_settled cfg c.view c.threshold reason closed calm)
          (fell_back id (stream_feed id c s.timers s.sources h.one e)))
]

-- The dashboard refines the abstract view of its feed: in every state that it reaches, each event with the
-- rendering after it does to view, mode and feed one of the things that the abstract view allows for the event.
pub step-Next :
    (cfg : Config) (event : Event) (s : Live)
    → Reach cfg s
    → Next cfg event (spec_of s) (spec_of (step cfg event s))
step-Next cfg event s r = by_event event (Reach-NoLeak cfg s r) (Reach-IsCalm cfg s r)
  where
    by_event :
        (event : Event)
        → NoLeak s
        → IsCalm s
        → Next cfg event (spec_of s) (spec_of (step cfg event s))
    by_event (set_live_mode mode) h calm = set_live_mode-Next cfg mode s h calm
    by_event (show_view view) h calm = show_view-Next cfg view s h calm
    by_event (answered id snap) h calm = answered-Next cfg id snap s h calm
    by_event (failed id msg) h calm = failed-Next cfg id msg s h calm
    by_event (tick id) h calm = tick-Next cfg id s h calm
    by_event (message id snap) h calm = message-Next cfg id snap s h calm
    by_event (stream_error id) h calm = stream_error-Next cfg id s h calm
