-- ===== src/Dashboard/Live/Feed/Choosing.antt =====
-- What choosing a mode or a view does to the feed of website/src/components/dashboard/LiveDashboard.tsx.
use mathlib.Core.Bool.{true≢false}
use shadownet_agent.Common.{
  ℕ, ◌≡◌, ◌≢◌, refl, sym, ap, ◌∙◌, arith, true, false, Option, none, some, subst,
}
use shadownet_agent.Dashboard.Live.Events.{Event, set_live_mode, show_view, handle, step}
use shadownet_agent.Dashboard.Live.Feed.Started.{Restarted, restarted_cases}
use shadownet_agent.Dashboard.Live.Feed.{Spec, spec_of, started, Next, stay, chosen, visited}
use shadownet_agent.Dashboard.Live.Held.{NoLeak}
use shadownet_agent.Dashboard.Live.NoLeak.{handle-NoLeak}
use shadownet_agent.Dashboard.Live.Threshold.{IsCalm}
use shadownet_agent.Dashboard.Live.{
  Config, Live, LiveMode, Deps, deps_of, same_view, same_mode, same_deps, is_settled, commit,
}
use shadownet_agent.Dashboard.Types.{DashboardView}

same_mode_sound : (a b : LiveMode) → same_mode a b ≡ true → a ≡ b
unfolding same_mode
same_mode_sound LiveMode.auto LiveMode.auto h = refl
same_mode_sound LiveMode.poll LiveMode.poll h = refl
same_mode_sound LiveMode.off LiveMode.off h = refl
same_mode_sound _ _ h = ground arith

same_view_sound : (a b : DashboardView) → same_view a b ≡ true → a ≡ b
unfolding same_view
same_view_sound DashboardView.global DashboardView.global h = refl
same_view_sound DashboardView.iran DashboardView.iran h = refl
same_view_sound DashboardView.protocols DashboardView.protocols h = refl
same_view_sound DashboardView.releases DashboardView.releases h = refl
same_view_sound _ _ h = ground arith

mode_of_deps :
    (o : Option Deps) (d : Deps) (mode : LiveMode)
    → same_deps o d ≡ true
    → same_deps o (record d { live_mode = mode }) ≡ true
    → d.live_mode ≡ mode
mode_of_deps none d mode h k = ground arith
mode_of_deps (some last) d mode h k =
    ground (arith, same_mode_sound last.live_mode d.live_mode, same_mode_sound last.live_mode mode)

view_of_deps :
    (o : Option Deps) (d : Deps) (view : DashboardView)
    → same_deps o d ≡ true
    → same_deps o (record d { view = view }) ≡ true
    → d.view ≡ view
view_of_deps none d view h k = ground arith
view_of_deps (some last) d view h k =
    ground (arith, same_view_sound last.view d.view, same_view_sound last.view view)

pub started_path :
    (cfg : Config) (s t : Live) → Restarted cfg s t → spec_of t ≡ started cfg s.live_mode s.view
started_path cfg s t r i = record { view = r.view i; mode = r.live_mode i; feed = r.feed i }

-- An event whose handler leaves view and mode, and then renders.
pub moves :
    (cfg : Config) (event : Event) (s u : Live) (a : Spec)
    → NoLeak u
    → spec_of u ≡ a
    → (is_settled u ≡ true → Next cfg event (spec_of s) a)
    → (is_settled u ≡ false → Next cfg event (spec_of s) (started cfg u.live_mode u.view))
    → Next cfg event (spec_of s) (spec_of (commit cfg u))
moves cfg event s u a leak k p q =
    restarted_cases (λ t. Next cfg event (spec_of s) (spec_of t)) cfg u leak
      (λ e. subst (Next cfg event (spec_of s)) (sym k) (p e))
      (λ t e r. subst (Next cfg event (spec_of s)) (sym (started_path cfg u t r)) (q e))

-- An event after which the effect does not run.
pub settles :
    (cfg : Config) (event : Event) (s u : Live) (a : Spec)
    → NoLeak u
    → spec_of u ≡ a
    → is_settled u ≡ true
    → Next cfg event (spec_of s) a
    → Next cfg event (spec_of s) (spec_of (commit cfg u))
settles cfg event s u a leak k e n =
    moves cfg event s u a leak k (λ t. n) (λ t. absurd (true≢false (sym e ∙ t)))

-- The effect does not run for a snapshot with the default threshold, or none.
pub calm_again :
    (s : Live) (n : ℕ)
    → IsCalm s
    → n ≡ 20
    → same_deps s.deps (record (deps_of s) { threshold = n }) ≡ true
unfolding is_settled
calm_again s n (e, h) k =
    ap (λ (m : ℕ). same_deps s.deps (record (deps_of s) { threshold = m })) (k ∙ sym h) ∙ e

pub foreign :
    (s : Live) (n : ℕ)
    → IsCalm s
    → same_deps s.deps (record (deps_of s) { threshold = n }) ≡ false
    → n ≢ 20
foreign s n calm h k = true≢false (sym (calm_again s n calm k) ∙ h)

pub set_live_mode-Next :
    (cfg : Config) (mode : LiveMode) (s : Live)
    → NoLeak s
    → IsCalm s
    → Next cfg (set_live_mode mode) (spec_of s) (spec_of (step cfg (set_live_mode mode) s))
unfolding step handle is_settled
set_live_mode-Next cfg mode s h calm =
    let u = record s { live_mode = mode } in
    moves cfg (set_live_mode mode) s u (spec_of u) (handle-NoLeak cfg (set_live_mode mode) s h) refl
      (λ e.
        let k = mode_of_deps s.deps (deps_of s) mode calm.0 e in
        subst
          (λ (m : LiveMode).
            Next cfg (set_live_mode mode) (spec_of s) (record (spec_of s) { mode = m }))
          k (stay k))
      (λ e. chosen mode)

pub show_view-Next :
    (cfg : Config) (view : DashboardView) (s : Live)
    → NoLeak s
    → IsCalm s
    → Next cfg (show_view view) (spec_of s) (spec_of (step cfg (show_view view) s))
unfolding step handle is_settled
show_view-Next cfg view s h calm =
    let u = record s { view = view } in
    moves cfg (show_view view) s u (spec_of u) (handle-NoLeak cfg (show_view view) s h) refl
      (λ e.
        let k = view_of_deps s.deps (deps_of s) view calm.0 e in
        subst
          (λ (v : DashboardView).
            Next cfg (show_view view) (spec_of s) (record (spec_of s) { view = v }))
          k (stay k))
      (λ e. visited view)
