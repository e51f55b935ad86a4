-- ===== src/Copying.antt =====
-- The copy buttons: copyValue of website/src/components/DonationQRCard.tsx, and CommandBlock of
-- website/src/components/DownloadSection.tsx.
pub mod Fresh
use shadownet_agent.Common.{
  ℕ, ◌+◌, ◌≤◌, leb, Bool, true, false, Option, none, some, List, [], ◌∷◌, ◌++◌, All, if◌then◌else◌,
}

-- What is marked as copied, and the timers that the browser holds, in the order of their start and by the time
-- at which they fire, in milliseconds: `copied` of CommandBlock is whether something is.
pub record Copying (A : Type 0) : Type 0 where
  pub copied : Option A
  pub timers : List ℕ
  pub now : ℕ

abbrev pub fresh : (A : Type 0) → ℕ → Copying A
fresh A now = record { copied = none; timers = []; now = now }

-- The delays of the two timers.
abbrev pub donation_delay : ℕ
donation_delay = 1600

abbrev pub command_delay : ℕ
command_delay = 1200

module _ {A : Type 0} where
  -- `writeText` succeeds.
  unfoldable pub written : ℕ → A → Copying A → Copying A
  written delay key s = record s { copied = some key; timers = s.timers ++ (s.now + delay) ∷ [] }

  -- `writeText` throws: CommandBlock catches it, DonationQRCard does not.
  unfoldable pub refused : Bool → Copying A → Copying A
  refused catches s = if catches then record s { copied = none } else s

  -- The first timer fires when its time has come.
  unfoldable pub fired : Copying A → Copying A
  fired s = elim s.timers [
    | [] ↦ s
    | time ∷ more ↦ if leb time s.now then record s { copied = none; timers = more } else s
  ]

  unfoldable pub waited : ℕ → Copying A → Copying A
  waited time s = record s { now = s.now + time }
