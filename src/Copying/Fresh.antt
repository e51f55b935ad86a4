-- ===== src/Copying/Fresh.antt =====
-- What the copy buttons of website/src/components/DonationQRCard.tsx and DownloadSection.tsx mark as copied.
use shadownet_agent.Common.{ℕ, ◌+◌, ◌≤◌, ◌≡◌, Bool, Option, none, some, List, [], ◌∷◌, ◌++◌, All}
use shadownet_agent.Copying.{Copying, fresh, written, refused, fired, waited}

module _ {A : Type 0} (delay : ℕ) where
  -- What is marked was copied last, and its timer is the last one.
  abbrev IsMarked : Option (A × ℕ) → Copying A → Option A → Type 0
  IsMarked last s none = Unit
  IsMarked last s (some key) =
      (at : ℕ) × (older : List ℕ) × (last ≡ some (key, at))
      × (s.timers ≡ older ++ (at + delay) ∷ [])

  record IsTimed (last : Option (A × ℕ)) (s : Copying A) : Type 0 where
    pub ahead : All (λ t. s.now ≤ t) s.timers
    pub marked : IsMarked last s s.copied

module _ {A : Type 0} (delay : ℕ) (catches : Bool) where
  -- The states that clicks, timers and time lead to, with the last text that was copied and when. Time does not
  -- pass by a timer that is to fire.
  pub data Copied : Option (A × ℕ) → Copying A → Type 0 where
    begin : (now : ℕ) → Copied none (fresh A now)
    wrote :
        {last : Option (A × ℕ)} {s : Copying A} (key : A)
        → Copied last s
        → Copied (some (key, s.now)) (written delay key s)
    threw :
        {last : Option (A × ℕ)} {s : Copying A} → Copied last s → Copied last (refused catches s)
    rang : {last : Option (A × ℕ)} {s : Copying A} → Copied last s → Copied last (fired s)
    passed :
        {last : Option (A × ℕ)} {s : Copying A} (time : ℕ)
        → All (λ t. s.now + time ≤ t) s.timers
        → Copied last s
        → Copied last (waited time s)
