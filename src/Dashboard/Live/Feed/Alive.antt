-- ===== src/Dashboard/Live/Feed/Alive.antt =====
-- The feed of website/src/components/dashboard/LiveDashboard.tsx does not stop by itself.
use mathlib.Core.Bool.{true≢false}
use shadownet_agent.Common.{◌≡◌, refl, sym, ap₂, ◌∙◌, ◌⊎◌, inl, inr}
use shadownet_agent.Dashboard.Live.Events.{Event, mounted, Reach, start, next}
use shadownet_agent.Dashboard.Live.Feed.Refined.{step-Next}
use shadownet_agent.Dashboard.Live.Feed.Started.{restarted_cases}
use shadownet_agent.Dashboard.Live.Feed.{
  polling, streaming, Spec, spec_of, wanted, Next, stay, chosen, visited, answered_anew,
  streamed_anew, fell_back,
}
use shadownet_agent.Dashboard.Live.{Config, Live, is_settled}

-- The feed is the one that the mode asks for, or the polling that has taken the place of a stream.
abbrev pub IsAlive : Config → Spec → Type 0
IsAlive cfg a =
    (a.feed ≡ wanted cfg a.mode a.view)
    ⊎ ((wanted cfg a.mode a.view ≡ streaming) × (a.feed ≡ polling))

Next-IsAlive :
    {cfg : Config} {event : Event} {a b : Spec} → Next cfg event a b → IsAlive cfg a → IsAlive cfg b
Next-IsAlive (stay c) h = h
Next-IsAlive (chosen mode) h = inl refl
Next-IsAlive (visited view) h = inl refl
Next-IsAlive (answered_anew id snap n) h = inl refl
Next-IsAlive (streamed_anew id snap n) h = inl refl
Next-IsAlive (fell_back id k) (inl e) = inr (sym e ∙ k, refl)
Next-IsAlive (fell_back id k) (inr (e, l)) = inr (e, refl)

-- In every state that the dashboard reaches between events, a timer runs or a stream is open just as the mode
-- and the configuration ask for: the feed of the mode, or, after an error of its stream, polling in its place.
pub Reach-IsAlive : (cfg : Config) (s : Live) → Reach cfg s → IsAlive cfg (spec_of s)
unfolding is_settled
Reach-IsAlive cfg _ (start view) =
    restarted_cases (λ t. IsAlive cfg (spec_of t)) cfg (mounted view)
      (record { timers = refl; sources = refl; one = inl refl; requests = tt })
      (λ e. absurd (true≢false (sym e)))
      (λ t e r. inl (r.feed ∙ sym (ap₂ (wanted cfg) r.live_mode r.view)))
Reach-IsAlive cfg _ (next {s} event r) =
    Next-IsAlive (step-Next cfg event s r) (Reach-IsAlive cfg s r)
