-- ===== src/Dashboard/Map/Explored.antt =====
-- While the privacy switch of website/src/components/dashboard/LiveDashboard.tsx stays on, what the map shows and
-- the selection holds of a region is what the privacy filter lets through.
use shadownet_agent.Common.Text.{Text, Unicode}
use shadownet_agent.Common.{ℕ, ◌≤◌, ◌≡◌, true, Option, none, some}
use shadownet_agent.Dashboard.Map.{Explorer, opened, hover, leave, click, set_snapshot}
use shadownet_agent.Dashboard.Privacy.Redaction.{IsShown}
use shadownet_agent.Dashboard.Types.{DashboardSnapshot, RegionAggregate}

-- The states that the pointer and the feed lead to, the switch being left on and each snapshot having a threshold
-- of at least `least`.
pub data Explored (u : Unicode) (least : ℕ) : Explorer → Type 0 where
  begin : Explored u least opened
  hovered :
      {s : Explorer} (name : Option Text) (x y : ℕ)
      → Explored u least s
      → Explored u least (hover u name x y s)
  left : {s : Explorer} → Explored u least s → Explored u least (leave s)
  clicked :
      {s : Explorer} (name : Option Text) → Explored u least s → Explored u least (click u name s)
  received :
      {s : Explorer} (snap : DashboardSnapshot)
      → least ≤ snap.privacy_threshold
      → Explored u least s
      → Explored u least (set_snapshot (some snap) s)
  lost : {s : Explorer} → Explored u least s → Explored u least (set_snapshot none s)

-- A region that is there is redacted or has enough samples.
abbrev pub IsSafe : ℕ → Option RegionAggregate → Type 0
IsSafe least none = Unit
IsSafe least (some r) = IsShown least r

abbrev HasThreshold : ℕ → Option DashboardSnapshot → Type 0
HasThreshold least none = Unit
HasThreshold least (some snap) = least ≤ snap.privacy_threshold

record IsPrivate (least : ℕ) (s : Explorer) : Type 0 where
  pub mode : s.privacy_mode ≡ true
  pub snapshot : HasThreshold least s.snapshot
  pub tooltip : IsSafe least s.tooltip.region
