-- ===== src/Runtime/Events.antt =====
-- The events of the local runtime: RuntimeEvent of website/src/lib/runtime-client.ts, mapStatus
-- and mergeEvents of website/src/components/dashboard/RuntimeDashboard.tsx, and the selection and
-- colours of website/src/components/dashboard/EventTimeline.tsx.
pub mod Merge
use shadownet_agent.Common.{
  ℕ, Bool, true, false, ◌||◌, Option, none, some, List, [], ◌∷◌, ◌++◌, map, take, leb,
  if◌then◌else◌,
}
use shadownet_agent.Common.Dict.{Dict, get, set, has}
use shadownet_agent.Common.Sort.{sort}
use shadownet_agent.Common.Text.{Text, txt, same, trim, includes, decimal}

-- `metadata` is any JSON object: a parameter. Timestamps are Unix seconds.
pub record RuntimeEvent (M : Type 0) : Type 0 where
  pub timestamp : ℕ
  pub kind : Text
  pub message : Text
  pub metadata : Option M

pub data UiStatus : Type 0 where
  connecting connected disconnected error : UiStatus

-- mapStatus; `to_lower` is the engine's `toLowerCase`.
unfoldable pub map_status : (Text → Text) → Text → UiStatus
map_status to_lower s =
    let v = to_lower (trim s) in
    if same v (txt "connected")
    then connected
    else if same v (txt "connecting")
    then connecting
    else if same v (txt "error") || same v (txt "failed")
    then error
    else disconnected

-- The colour classes of typeClass.
pub data TypeClass : Type 0 where
  red emerald amber sky foreground : TypeClass

-- typeClass; `to_upper` is the engine's `toUpperCase`.
unfoldable pub type_class : (Text → Text) → Text → TypeClass
type_class to_upper type =
    let t = to_upper (trim type) in
    if includes t (txt "FAIL") || includes t (txt "CRASH") || includes t (txt "ERROR")
    then red
    else if includes t (txt "SUCCESS") || includes t (txt "OK") || includes t (txt "CONNECTED")
    then emerald
    else if includes t (txt "DECISION") || includes t (txt "SWITCH")
    then amber
    else if includes t (txt "CONFIG") || includes t (txt "SINGBOX")
    then sky
    else foreground

module _ {M : Type 0} where
  -- `${ev.timestamp}-${ev.type}-${ev.message}`
  unfoldable pub event_key : RuntimeEvent M → Text
  event_key ev = decimal ev.timestamp ++ (txt "-" ++ (ev.kind ++ (txt "-" ++ ev.message)))

  -- `if (!map.has(key)) map.set(key, ev)`
  unfoldable pub add_event : Dict (RuntimeEvent M) → RuntimeEvent M → Dict (RuntimeEvent M)
  add_event d ev = elim (get (event_key ev) d) [ none ↦ set (event_key ev) ev d | some old ↦ d ]

  unfoldable pub add_events : Dict (RuntimeEvent M) → List (RuntimeEvent M) → Dict (RuntimeEvent M)
  add_events d [] = d
  add_events d (ev ∷ evs) = add_events (add_event d ev) evs

  -- `b.timestamp - a.timestamp <= 0`
  abbrev pub newer : RuntimeEvent M → RuntimeEvent M → Bool
  newer a b = leb b.timestamp a.timestamp

  unfoldable pub merge_events :
      List (RuntimeEvent M) → List (RuntimeEvent M) → List (RuntimeEvent M)
  merge_events prev incoming =
      take 120
        (sort newer (map (λ (e : Text × RuntimeEvent M). e.1) (add_events [] (incoming ++ prev))))

  -- The events that EventTimeline lists.
  unfoldable pub recent : ℕ → List (RuntimeEvent M) → List (RuntimeEvent M)
  recent limit events = take limit (sort newer events)
