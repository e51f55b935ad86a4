-- ===== src/Runtime/Debug.antt =====
-- The last decision and the last failure that website/src/components/dashboard/DebugPanel.tsx shows.
pub mod Latest
use shadownet_agent.Common.{
  Bool, true, false, Option, none, some, List, [], ◌∷◌, any, ltb, if◌then◌else◌,
}
use shadownet_agent.Common.Text.{Text, txt, same, trim}
use shadownet_agent.Runtime.Events.{RuntimeEvent}

module _ {M : Type 0} where
  -- `wanted.has(ev.type.trim().toUpperCase())`; `to_upper` is the engine's `toUpperCase`.
  unfoldable pub is_wanted : (Text → Text) → List Text → RuntimeEvent M → Bool
  is_wanted to_upper types ev =
      any (λ (t : Text). same (to_upper (trim t)) (to_upper (trim ev.kind))) types

  -- `if (!best || ev.timestamp > best.timestamp) best = ev`
  unfoldable pub later_of : Option (RuntimeEvent M) → RuntimeEvent M → RuntimeEvent M
  later_of none ev = ev
  later_of (some best) ev = if ltb best.timestamp ev.timestamp then ev else best

  -- The loop of latestByType.
  unfoldable pub latest_from :
      (Text → Text)
      → List Text
      → Option (RuntimeEvent M)
      → List (RuntimeEvent M)
      → Option (RuntimeEvent M)
  latest_from to_upper types best [] = best
  latest_from to_upper types best (ev ∷ more) =
      let next = if is_wanted to_upper types ev then some (later_of best ev) else best in
      latest_from to_upper types next more

  unfoldable pub latest_by_type :
      (Text → Text) → List (RuntimeEvent M) → List Text → Option (RuntimeEvent M)
  latest_by_type to_upper events types = latest_from to_upper types none events

  -- lastDecision and lastFailure
  unfoldable pub last_decision : (Text → Text) → List (RuntimeEvent M) → Option (RuntimeEvent M)
  last_decision to_upper events =
      latest_by_type to_upper events (txt "ORCHESTRATOR_DECISION" ∷ txt "POLICY_DECISION" ∷ [])

  unfoldable pub last_failure : (Text → Text) → List (RuntimeEvent M) → Option (RuntimeEvent M)
  last_failure to_upper events =
      latest_by_type to_upper events
        (txt "CONNECTION_FAIL" ∷ txt "SINGBOX_START_FAILED" ∷ txt "PROBE_FAILED" ∷ [])
