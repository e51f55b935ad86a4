-- ===== src/Dashboard/Live/Threshold.antt =====
-- The effect of website/src/components/dashboard/LiveDashboard.tsx depends on the threshold of the
-- snapshot that it clears: what this does to snapshots.
use shadownet_agent.Common.{
  ℕ, ◌≡◌, refl, sym, ap, ◌∙◌, arith, true, not, ◌&&◌, Option, none, some, find, ◌==◌, if◌then◌else◌,
  option_branch,
}
use shadownet_agent.Common.Text.{txt}
use shadownet_agent.Dashboard.Live.Events.{
  Event, set_live_mode, show_view, answered, failed, tick, message, stream_error, find_handle,
  load_succeeded, load_failed, on_error, handle, step, mounted, Reach, start, next,
}
use shadownet_agent.Dashboard.Live.{
  Config, Live, Request, Handle, Deps, privacy_threshold, deps_of, same_deps, close, is_settled,
  commit,
}
use shadownet_agent.Dashboard.Types.{DashboardSnapshot}
use shadownet_agent.Dashboard.Live.Settling.{load_once-Keeps, start_poll-Keeps, commit_cases}

abbrev pub last_threshold : Option Deps → ℕ
last_threshold none = 20
last_threshold (some d) = d.threshold

pub same_deps-threshold :
    (o : Option Deps) (d : Deps) → same_deps o d ≡ true → d.threshold ≡ last_threshold o
same_deps-threshold none d h = ground arith
same_deps-threshold (some last) d h = ground arith

-- No callback touches the dependencies of the last run.
pub deps-handle : (cfg : Config) (event : Event) (s : Live) → (handle cfg event s).deps ≡ s.deps
unfolding handle load_succeeded load_failed on_error
deps-handle cfg (set_live_mode mode) s = refl
deps-handle cfg (show_view view) s = refl
deps-handle cfg (answered id snap) s =
    option_branch (λ (t : Live). t.deps ≡ s.deps)
      (find (λ (r : Request). r.id == id && not r.aborted) s.requests) (λ e. refl) (λ r e. refl)
deps-handle cfg (failed id msg) s =
    option_branch (λ (t : Live). t.deps ≡ s.deps) (find (λ (r : Request). r.id == id) s.requests)
      (λ e. refl) (λ r e. refl)
deps-handle cfg (tick id) s =
    option_branch (λ (t : Live). t.deps ≡ s.deps) (find_handle id s.timers) (λ e. refl)
      (λ c e. (load_once-Keeps cfg c.view c.threshold (txt "poll refresh") s).deps)
deps-handle cfg (message id snap) s =
    option_branch (λ (t : Live). t.deps ≡ s.deps) (find_handle id s.sources) (λ e. refl)
      (λ c e. refl)
deps-handle cfg (stream_error id) s =
    option_branch (λ (t : Live). t.deps ≡ s.deps) (find_handle id s.sources) (λ e. refl)
      (λ c e.
        (start_poll-Keeps cfg c.view c.threshold (txt "stream error; polling fallback")
          (record s { sources = close s.sse_ref s.sources; sse_ref = none })).deps)

-- A state between events: rendered to the end, with the default threshold.
abbrev pub IsCalm : Live → Type 0
IsCalm s = (is_settled s ≡ true) × (privacy_threshold s.snapshot ≡ 20)

commit-IsCalm : (cfg : Config) (s : Live) → last_threshold s.deps ≡ 20 → IsCalm (commit cfg s)
unfolding is_settled
commit-IsCalm cfg s h =
    commit_cases IsCalm cfg s (λ e. (e, same_deps-threshold s.deps (deps_of s) e ∙ h))
      (λ t f e n. (e, ap privacy_threshold n))

pub Reach-IsCalm : (cfg : Config) (s : Live) → Reach cfg s → IsCalm s
unfolding is_settled step
Reach-IsCalm cfg _ (start view) = commit-IsCalm cfg (mounted view) refl
Reach-IsCalm cfg _ (next {s} event r) =
    let (e, h) = Reach-IsCalm cfg s r in
    commit-IsCalm cfg (handle cfg event s) (
      ap last_threshold (deps-handle cfg event s)
      ∙ (sym (same_deps-threshold s.deps (deps_of s) e) ∙ h))

-- In every state between events, the snapshot that is shown has the default threshold of 20.
pub Reach-threshold :
    (cfg : Config) (s : Live) (snap : DashboardSnapshot)
    → Reach cfg s
    → s.snapshot ≡ some snap
    → snap.privacy_threshold ≡ 20
Reach-threshold cfg s snap r e = sym (ap privacy_threshold e) ∙ (Reach-IsCalm cfg s r).1

pub same_deps_iff :
    (o : Option Deps) (d : Deps) (n : ℕ)
    → same_deps o d ≡ true
    → d.threshold ≡ 20
    → same_deps o (record d { threshold = n }) ≡ (n == 20)
same_deps_iff none d n h k = ground arith
same_deps_iff (some last) d n h k = ground arith

-- A snapshot that comes in a calm state is still there after rendering if its threshold is 20.
commit-snapshot :
    (cfg : Config) (s u : Live) (snap : DashboardSnapshot)
    → IsCalm s
    → same_deps u.deps (deps_of u)
      ≡ same_deps s.deps (record (deps_of s) { threshold = snap.privacy_threshold })
    → u.snapshot ≡ some snap
    → (commit cfg u).snapshot ≡ (if snap.privacy_threshold == 20 then some snap else none)
unfolding is_settled
commit-snapshot cfg s u snap (e, h) d k =
    let test = d ∙ same_deps_iff s.deps (deps_of s) snap.privacy_threshold e h in
    commit_cases
      (λ (t : Live). t.snapshot ≡ (if snap.privacy_threshold == 20 then some snap else none)) cfg u
      (λ t. k ∙ ap (λ b. if b then some snap else none) (sym t ∙ test))
      (λ t f g n. n ∙ ap (λ b. if b then some snap else none) (sym f ∙ test))

succeeded-snapshot :
    (cfg : Config) (s : Live) (r : Request) (snap : DashboardSnapshot)
    → IsCalm s
    → (commit cfg (load_succeeded r snap s)).snapshot
      ≡ (if snap.privacy_threshold == 20 then some snap else none)
unfolding load_succeeded
succeeded-snapshot cfg s r snap h = commit-snapshot cfg s (load_succeeded r snap s) snap h refl refl

-- The answer to a request in flight is shown after the next rendering if its threshold is 20;
-- otherwise no snapshot is shown.
pub answered-snapshot :
    (cfg : Config) (s : Live) (id : ℕ) (r : Request) (snap : DashboardSnapshot)
    → Reach cfg s
    → find (λ (q : Request). q.id == id && not q.aborted) s.requests ≡ some r
    → (step cfg (answered id snap) s).snapshot
      ≡ (if snap.privacy_threshold == 20 then some snap else none)
unfolding step handle
answered-snapshot cfg s id r snap reach e =
    rw (e, handle) (succeeded-snapshot cfg s r snap (Reach-IsCalm cfg s reach))

-- A message of an open stream is shown after the next rendering if its threshold is 20; otherwise
-- no snapshot is shown.
pub message-snapshot :
    (cfg : Config) (s : Live) (id : ℕ) (c : Handle) (snap : DashboardSnapshot)
    → Reach cfg s
    → find_handle id s.sources ≡ some c
    → (step cfg (message id snap) s).snapshot
      ≡ (if snap.privacy_threshold == 20 then some snap else none)
unfolding step handle
message-snapshot cfg s id c snap reach e =
    rw (e, handle)
      (commit-snapshot cfg s (record s { snapshot = some snap; error = none }) snap
        (Reach-IsCalm cfg s reach) refl refl)
