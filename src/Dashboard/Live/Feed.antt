-- ===== src/Dashboard/Live/Feed.antt =====
-- What LiveDashboard promises, without refs, requests and effects: a view, a mode and a feed that is
-- idle, polling or streaming, for website/src/components/dashboard/LiveDashboard.tsx.
pub mod Started
pub mod Choosing
pub mod Refined
pub mod Alive
use shadownet_agent.Common.{ℕ, ◌≡◌, ◌≢◌, List, [], ◌∷◌, Bool, true, false, if◌then◌else◌}
use shadownet_agent.Common.Text.{Text}
use shadownet_agent.Dashboard.Live.{Config, Live, LiveMode, Handle}
use shadownet_agent.Dashboard.Live.Events.{
  Event, set_live_mode, show_view, answered, failed, tick, message, stream_error,
}
use shadownet_agent.Dashboard.Types.{DashboardView, DashboardSnapshot}

pub data Feed : Type 0 where
  idle polling streaming : Feed

pub record Spec : Type 0 where
  pub view : DashboardView
  pub mode : LiveMode
  pub feed : Feed

-- A running timer is a poll, an open event source a stream.
abbrev pub feed_from : List Handle → List Handle → Feed
feed_from [] [] = idle
feed_from [] (c ∷ cs) = streaming
feed_from (t ∷ ts) cs = polling

abbrev pub spec_of : Live → Spec
spec_of s = record { view = s.view; mode = s.live_mode; feed = feed_from s.timers s.sources }

-- The feed that a mode asks for, as far as it is configured and the stream opens with a threshold.
abbrev pub wanted_at : Config → LiveMode → DashboardView → ℕ → Feed
wanted_at cfg LiveMode.off view threshold = idle
wanted_at cfg LiveMode.poll view threshold = polling
wanted_at cfg LiveMode.auto view threshold =
    if cfg.can_use_stream
    then (if cfg.stream_opens view threshold then streaming else polling)
    else if cfg.can_use_snapshot_url
    then polling
    else idle

abbrev pub wanted : Config → LiveMode → DashboardView → Feed
wanted cfg mode view = wanted_at cfg mode view 20

-- The state in which the feed that is wanted has just been started.
abbrev pub started : Config → LiveMode → DashboardView → Spec
started cfg mode view = record { view = view; mode = mode; feed = wanted cfg mode view }

-- An event that leaves the state as it is: a choice only if it is the present one.
abbrev pub Changeless : Event → Spec → Type 0
Changeless (set_live_mode mode) a = a.mode ≡ mode
Changeless (show_view view) a = a.view ≡ view
Changeless _ a = Unit

-- What an event may do: nothing; start the feed of another mode or view; start it again on a snapshot with
-- another threshold; or go over from a stream to polling on its error.
pub data Next (cfg : Config) : Event → Spec → Spec → Type 0 where
  stay : {event : Event} {a : Spec} → Changeless event a → Next cfg event a a
  chosen : {a : Spec} (mode : LiveMode) → Next cfg (set_live_mode mode) a (started cfg mode a.view)
  visited :
      {a : Spec} (view : DashboardView) → Next cfg (show_view view) a (started cfg a.mode view)
  answered_anew :
      {a : Spec} (id : ℕ) (snap : DashboardSnapshot)
      → snap.privacy_threshold ≢ 20
      → Next cfg (answered id snap) a (started cfg a.mode a.view)
  streamed_anew :
      {a : Spec} (id : ℕ) (snap : DashboardSnapshot)
      → snap.privacy_threshold ≢ 20
      → Next cfg (message id snap) a (started cfg a.mode a.view)
  fell_back :
      {a : Spec} (id : ℕ)
      → a.feed ≡ streaming
      → Next cfg (stream_error id) a (record a { feed = polling })
