-- ===== src/Dashboard/Session.antt =====
-- A visit to website/src/components/dashboard/LiveDashboard.tsx: its feed together with the map that shows the
-- snapshots of the feed.
use shadownet_agent.Common.Text.{Text, Unicode}
use shadownet_agent.Common.{ℕ, Option}
use shadownet_agent.Dashboard.Live.Events.{Event, step, mounted}
use shadownet_agent.Dashboard.Live.{Config, Live, commit}
use shadownet_agent.Dashboard.Map.Explored.{Explored}
use shadownet_agent.Dashboard.Map.{Explorer, opened, hover, leave, click, set_snapshot}
use shadownet_agent.Dashboard.Types.{DashboardView}

-- The states between events of the feed and the map, the privacy switch being left on. Each event of the feed ends
-- in a rendering, which hands its snapshot to the map.
pub data Session (cfg : Config) (u : Unicode) : Live → Explorer → Type 0 where
  visit :
      (view : DashboardView)
      → Session cfg u
          (commit cfg (mounted view))
          (set_snapshot (commit cfg (mounted view)).snapshot opened)
  fed :
      {s : Live} {m : Explorer} (event : Event)
      → Session cfg u s m
      → Session cfg u (step cfg event s) (set_snapshot (step cfg event s).snapshot m)
  pointed :
      {s : Live} {m : Explorer} (name : Option Text) (x y : ℕ)
      → Session cfg u s m
      → Session cfg u s (hover u name x y m)
  gone : {s : Live} {m : Explorer} → Session cfg u s m → Session cfg u s (leave m)
  chosen :
      {s : Live} {m : Explorer} (name : Option Text)
      → Session cfg u s m
      → Session cfg u s (click u name m)
