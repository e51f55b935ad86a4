-- ===== src/Dashboard/Live/Settling.antt =====
-- The effect of website/src/components/dashboard/LiveDashboard.tsx changes what it depends on: how often
-- it runs until it does not.
use shadownet_agent.Common.{
  ℕ, ◌≡◌, refl, sym, ap, ◌∙◌, inl, inr, arith, true, false, Option, none, some, Option-cases,
  either_branch, known_branch, ap₂,
}
use shadownet_agent.Common.Text.{Text, txt}
use shadownet_agent.Dashboard.Live.{
  Config, Live, LiveMode, Deps, privacy_threshold, stop_all, load_once, set_interval, start_poll,
  open_source, start_sse, start_auto, start_mode, effect, deps_of, same_view, same_mode, same_deps,
  is_settled, clean_up, run_effect, commit_fuel, commit,
}
use shadownet_agent.Dashboard.Types.{DashboardView}

-- What starting a feed leaves alone.
pub record Keeps (s t : Live) : Type 0 where
  pub view : t.view ≡ s.view
  pub live_mode : t.live_mode ≡ s.live_mode
  pub deps : t.deps ≡ s.deps
  pub snapshot : s.snapshot ≡ none → t.snapshot ≡ none

pub load_once-Keeps :
    (cfg : Config) (view : DashboardView) (threshold : ℕ) (reason : Text) (s : Live)
    → Keeps s (load_once cfg view threshold reason s)
unfolding load_once
load_once-Keeps cfg view threshold reason s =
    either_branch (Keeps s) cfg.can_use_snapshot_url
      (record { view = refl; live_mode = refl; deps = refl; snapshot = λ e. e })
      (record { view = refl; live_mode = refl; deps = refl; snapshot = λ e. refl })

pub start_poll-Keeps :
    (cfg : Config) (view : DashboardView) (threshold : ℕ) (reason : Text) (s : Live)
    → Keeps s (start_poll cfg view threshold reason s)
unfolding start_poll set_interval
start_poll-Keeps cfg view threshold reason s =
    let k = load_once-Keeps cfg view threshold reason s in
    record { view = k.view; live_mode = k.live_mode; deps = k.deps; snapshot = k.snapshot }

start_sse-Keeps :
    (cfg : Config) (view : DashboardView) (threshold : ℕ) (reason : Text) (s : Live)
    → Keeps s (start_sse cfg view threshold reason s)
unfolding start_sse open_source
start_sse-Keeps cfg view threshold reason s =
    either_branch (Keeps s) cfg.can_use_stream
      (either_branch (Keeps s) (cfg.stream_opens view threshold)
        (record { view = refl; live_mode = refl; deps = refl; snapshot = λ e. e })
        (start_poll-Keeps cfg view threshold (txt "stream init failed; polling") s))
      (start_poll-Keeps cfg view threshold (txt "stream unavailable; polling") s)

start_auto-Keeps : (cfg : Config) (d : Deps) (s : Live) → Keeps s (start_auto cfg d s)
unfolding start_auto
start_auto-Keeps cfg d s =
    either_branch (Keeps s) cfg.can_use_stream
      (start_sse-Keeps cfg d.view d.threshold (txt "streaming") s)
      (either_branch (Keeps s) cfg.can_use_snapshot_url
        (start_poll-Keeps cfg d.view d.threshold (txt "polling") s)
        (record { view = refl; live_mode = refl; deps = refl; snapshot = λ e. e }))

start_mode-Keeps :
    (cfg : Config) (mode : LiveMode) (d : Deps) (s : Live) → Keeps s (start_mode cfg mode d s)
unfolding start_mode
start_mode-Keeps cfg LiveMode.off d s = record {
  view = refl;
  live_mode = refl;
  deps = refl;
  snapshot = λ e. e;
}
start_mode-Keeps cfg LiveMode.poll d s = start_poll-Keeps cfg d.view d.threshold (txt "polling") s
start_mode-Keeps cfg LiveMode.auto d s = start_auto-Keeps cfg d s

-- A run of the effect leaves no snapshot, and keeps what it depends on otherwise.
pub record Ran (s t : Live) : Type 0 where
  pub view : t.view ≡ s.view
  pub live_mode : t.live_mode ≡ s.live_mode
  pub deps : t.deps ≡ some (deps_of s)
  pub snapshot : t.snapshot ≡ none

effect-Keeps :
    (cfg : Config) (d : Deps) (s t : Live)
    → s.view ≡ t.view
    → s.live_mode ≡ t.live_mode
    → Ran t (record (effect cfg d s) { deps = some (deps_of t) })
unfolding effect stop_all
effect-Keeps cfg d s t v m =
    let s' = record (stop_all s) { error = none; snapshot = none } in
    let k = start_mode-Keeps cfg d.live_mode d s' in
    record {
      view = k.view ∙ v;
      live_mode = k.live_mode ∙ m;
      deps = refl;
      snapshot = k.snapshot refl;
    }

pub run_effect-Ran : (cfg : Config) (s : Live) → Ran s (run_effect cfg s)
unfolding run_effect stop_all
run_effect-Ran cfg s = elim (Option-cases s.deps) [
  | inl e ↦
      effect-Keeps cfg (deps_of s) (clean_up s.deps s) s
        (ap (λ (o : Option Deps). (clean_up o s).view) e)
        (ap (λ (o : Option Deps). (clean_up o s).live_mode) e)
  | inr (d, e) ↦
      effect-Keeps cfg (deps_of s) (clean_up s.deps s) s
        (ap (λ (o : Option Deps). (clean_up o s).view) e)
        (ap (λ (o : Option Deps). (clean_up o s).live_mode) e)
]

same_view_refl : (v : DashboardView) → same_view v v ≡ true
unfolding same_view
same_view_refl DashboardView.global = refl
same_view_refl DashboardView.iran = refl
same_view_refl DashboardView.protocols = refl
same_view_refl DashboardView.releases = refl

same_mode_refl : (m : LiveMode) → same_mode m m ≡ true
unfolding same_mode
same_mode_refl LiveMode.auto = refl
same_mode_refl LiveMode.poll = refl
same_mode_refl LiveMode.off = refl

same_deps_refl : (d : Deps) → same_deps (some d) d ≡ true
same_deps_refl d = ground (arith, same_view_refl d.view, same_mode_refl d.live_mode)

-- A run from a state without a snapshot settles.
pub Ran-is_settled :
    (s t : Live) → Ran s t → privacy_threshold s.snapshot ≡ 20 → is_settled t ≡ true
unfolding is_settled
Ran-is_settled s t k h =
    ap₂ same_deps k.deps (λ i. record {
      view = k.view i;
      live_mode = k.live_mode i;
      threshold = (ap privacy_threshold k.snapshot ∙ sym h) i;
    })
    ∙ same_deps_refl (deps_of s)

-- Two runs settle; a state with a run behind it has no snapshot.
pub commit_cases :
    (P : Live → Type 0) (cfg : Config) (s : Live)
    → (is_settled s ≡ true → P s)
    → ((t : Live) → is_settled s ≡ false → is_settled t ≡ true → t.snapshot ≡ none → P t)
    → P (commit cfg s)
unfolding commit commit_fuel
commit_cases P cfg s p q =
    let once = run_effect cfg s in
    let first = run_effect-Ran cfg s in
    let second = run_effect-Ran cfg once in
    known_branch P (is_settled s) p (λ e.
      known_branch P (is_settled once) (λ t. q once e t first.snapshot)
        (λ t.
          q (run_effect cfg once) e
            (Ran-is_settled once (run_effect cfg once) second (ap privacy_threshold first.snapshot))
            second.snapshot))

-- From every state, two runs of the effect are enough: then no dependency differs from those of
-- its last run, so rendering ends.
pub commit-is_settled : (cfg : Config) (s : Live) → is_settled (commit cfg s) ≡ true
commit-is_settled cfg s = commit_cases (λ t. is_settled t ≡ true) cfg s (λ e. e) (λ t f e n. e)
