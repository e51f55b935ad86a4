-- ===== src/Dashboard/Live/Feed/Started.antt =====
-- What a run of the effect of website/src/components/dashboard/LiveDashboard.tsx starts.
use shadownet_agent.Common.{
  ℕ, ◌≡◌, refl, sym, ap, ap₂, ◌∙◌, inl, inr, true, false, none, List, [], known_branch, Bool-cases,
  if◌then◌else◌,
}
use shadownet_agent.Common.Text.{Text, txt}
use shadownet_agent.Dashboard.Live.Feed.{Feed, polling, streaming, feed_from, wanted_at, wanted}
use shadownet_agent.Dashboard.Live.Held.{NoLeak, stop_all-Idle}
use shadownet_agent.Dashboard.Live.NoLeak.{clean_up-NoLeak, run_effect-NoLeak}
use shadownet_agent.Dashboard.Live.Settling.{run_effect-Ran}
use shadownet_agent.Dashboard.Live.Threshold.{same_deps-threshold, last_threshold}
use shadownet_agent.Dashboard.Live.{
  Config, Live, LiveMode, Handle, Deps, privacy_threshold, stop_all, set_interval, start_poll,
  open_source, start_sse, start_auto, start_mode, effect, deps_of, is_settled, clean_up, run_effect,
  commit_fuel, commit,
}
use shadownet_agent.Dashboard.Types.{DashboardView}

abbrev pub feed_of : Live → Feed
feed_of s = feed_from s.timers s.sources

pub feed_of-start_poll :
    (cfg : Config) (view : DashboardView) (threshold : ℕ) (reason : Text) (s : Live)
    → feed_of (start_poll cfg view threshold reason s) ≡ polling
unfolding start_poll set_interval
feed_of-start_poll cfg view threshold reason s = refl

abbrev auto_feed : Config → DashboardView → ℕ → Feed
auto_feed cfg view threshold = if cfg.stream_opens view threshold then streaming else polling

feed_of-start_sse :
    (cfg : Config) (view : DashboardView) (threshold : ℕ) (reason : Text) (s : Live)
    → s.timers ≡ []
    → cfg.can_use_stream ≡ true
    → feed_of (start_sse cfg view threshold reason s) ≡ auto_feed cfg view threshold
unfolding start_sse open_source
feed_of-start_sse cfg view threshold reason s t h =
    elim (Bool-cases (cfg.stream_opens view threshold)) [
      | inl o ↦
          rw (h, start_sse, o)
            (ap (λ (ts : List Handle). feed_from ts (open_source view threshold reason s).sources)
              t)
      | inr o ↦
          rw (h, start_sse, o)
            (feed_of-start_poll cfg view threshold (txt "stream init failed; polling") s)
    ]

feed_of-start_mode :
    (cfg : Config) (mode : LiveMode) (d : Deps) (s : Live)
    → s.timers ≡ []
    → s.sources ≡ []
    → feed_of (start_mode cfg mode d s) ≡ wanted_at cfg mode d.view d.threshold
unfolding start_mode start_auto
feed_of-start_mode cfg LiveMode.off d s t c = ap₂ feed_from t c
feed_of-start_mode cfg LiveMode.poll d s t c =
    feed_of-start_poll cfg d.view d.threshold (txt "polling") s
feed_of-start_mode cfg LiveMode.auto d s t c = elim (Bool-cases cfg.can_use_stream) [
  | inl h ↦
      rw (h, start_mode, start_auto)
        (feed_of-start_sse cfg d.view d.threshold (txt "streaming") s t h)
  | inr h ↦ elim (Bool-cases cfg.can_use_snapshot_url) [
    | inl k ↦ rw (h, start_auto, k) (feed_of-start_poll cfg d.view d.threshold (txt "polling") s)
    | inr k ↦ rw (h, start_auto, k) (ap₂ feed_from t c)
  ]
]

-- A run of the effect starts the feed that its dependencies ask for.
feed_of-run_effect :
    (cfg : Config) (s : Live)
    → NoLeak s
    → feed_of (run_effect cfg s) ≡ wanted_at cfg s.live_mode s.view (privacy_threshold s.snapshot)
unfolding run_effect effect
feed_of-run_effect cfg s h =
    let cleaned = clean_up s.deps s in
    let idle = stop_all-Idle cleaned (clean_up-NoLeak s.deps s h) in
    feed_of-start_mode cfg s.live_mode (deps_of s)
      (record (stop_all cleaned) { error = none; snapshot = none }) idle.timers idle.sources

-- A state in which the feed has been started again.
pub record Restarted (cfg : Config) (s t : Live) : Type 0 where
  pub view : t.view ≡ s.view
  pub live_mode : t.live_mode ≡ s.live_mode
  pub feed : feed_of t ≡ wanted cfg s.live_mode s.view

one_run :
    (cfg : Config) (s : Live)
    → NoLeak s
    → privacy_threshold s.snapshot ≡ 20
    → Restarted cfg s (run_effect cfg s)
one_run cfg s h e =
    let ran = run_effect-Ran cfg s in
    record {
      view = ran.view;
      live_mode = ran.live_mode;
      feed = feed_of-run_effect cfg s h ∙ ap (wanted_at cfg s.live_mode s.view) e;
    }

-- If a run has settled, its threshold was the default one.
settled_threshold :
    (cfg : Config) (s : Live)
    → is_settled (run_effect cfg s) ≡ true
    → privacy_threshold s.snapshot ≡ 20
unfolding is_settled
settled_threshold cfg s e =
    let ran = run_effect-Ran cfg s in
    sym (ap last_threshold ran.deps)
    ∙ (sym (same_deps-threshold (run_effect cfg s).deps (deps_of (run_effect cfg s)) e)
        ∙ ap privacy_threshold ran.snapshot)

two_runs :
    (cfg : Config) (s : Live) → NoLeak s → Restarted cfg s (run_effect cfg (run_effect cfg s))
two_runs cfg s h =
    let once = run_effect-Ran cfg s in
    let again =
      one_run cfg (run_effect cfg s) (run_effect-NoLeak cfg s h)
        (ap privacy_threshold once.snapshot) in
    record {
      view = again.view ∙ once.view;
      live_mode = again.live_mode ∙ once.live_mode;
      feed = again.feed ∙ ap₂ (wanted cfg) once.live_mode once.view;
    }

-- Rendering leaves a settled state alone, and starts the feed of any other again.
pub restarted_cases :
    (P : Live → Type 0) (cfg : Config) (s : Live)
    → NoLeak s
    → (is_settled s ≡ true → P s)
    → ((t : Live) → is_settled s ≡ false → Restarted cfg s t → P t)
    → P (commit cfg s)
unfolding commit commit_fuel
restarted_cases P cfg s h p q =
    let once = run_effect cfg s in
    known_branch P (is_settled s) p (λ e.
      known_branch P (is_settled once) (λ t. q once e (one_run cfg s h (settled_threshold cfg s t)))
        (λ t. q (run_effect cfg once) e (two_runs cfg s h)))
