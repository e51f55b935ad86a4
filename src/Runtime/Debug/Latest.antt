-- ===== src/Runtime/Debug/Latest.antt =====
-- What latestByType of website/src/components/dashboard/DebugPanel.tsx finds.
use shadownet_agent.Common.{
  ℕ, ◌≤◌, ◌<◌, ◌≡◌, ◌⊎◌, inl, inr, refl, subst, sym, ap, ◌∙◌, arith, true, false, Option, none,
  some, List, [], ◌∷◌, ◌++◌, append-nil, append_assoc, ltb, ltb→lt, ltb→ge, Bool-cases, All,
  All-append,
}
use shadownet_agent.Common.Text.{Text}
use shadownet_agent.Runtime.Debug.{is_wanted, later_of, latest_from, latest_by_type}
use shadownet_agent.Runtime.Events.{RuntimeEvent}

module _ {M : Type 0} (to_upper : Text → Text) (types : List Text) where
  abbrev Unwanted : RuntimeEvent M → Type 0
  Unwanted ev = is_wanted to_upper types ev ≡ false

  -- Of the events of the types, none or the first of the latest.
  abbrev pub IsLatest : List (RuntimeEvent M) → Option (RuntimeEvent M) → Type 0
  IsLatest events none = All Unwanted events
  IsLatest events (some best) =
      (before : List (RuntimeEvent M)) × (after : List (RuntimeEvent M)) × (events
        ≡ before ++ best ∷ after)
      × (is_wanted to_upper types best ≡ true)
      × All (λ ev. Unwanted ev ⊎ (ev.timestamp < best.timestamp)) before
      × All (λ ev. Unwanted ev ⊎ (ev.timestamp ≤ best.timestamp)) after

  All-inl :
      (P : RuntimeEvent M → Type 0) (events : List (RuntimeEvent M))
      → All Unwanted events
      → All (λ ev. Unwanted ev ⊎ P ev) events
  All-inl P [] h = tt
  All-inl P (ev ∷ events) (p, h) = (inl p, All-inl P events h)

  earlier :
      (a b : ℕ) (events : List (RuntimeEvent M))
      → a ≤ b
      → All (λ ev. Unwanted ev ⊎ (ev.timestamp ≤ a)) events
      → All (λ ev. Unwanted ev ⊎ (ev.timestamp ≤ b)) events
  earlier a b [] l h = tt
  earlier a b (ev ∷ events) l (inl p, h) = (inl p, earlier a b events l h)
  earlier a b (ev ∷ events) l (inr p, h) = (inr (omega arith), earlier a b events l h)

  strictly_earlier :
      (a b : ℕ) (events : List (RuntimeEvent M))
      → a < b
      → All (λ ev. Unwanted ev ⊎ (ev.timestamp ≤ a)) events
      → All (λ ev. Unwanted ev ⊎ (ev.timestamp < b)) events
  strictly_earlier a b [] l h = tt
  strictly_earlier a b (ev ∷ events) l (inl p, h) = (inl p, strictly_earlier a b events l h)
  strictly_earlier a b (ev ∷ events) l (inr p, h) =
      (inr (omega arith), strictly_earlier a b events l h)

  weaken :
      (b : ℕ) (events : List (RuntimeEvent M))
      → All (λ ev. Unwanted ev ⊎ (ev.timestamp < b)) events
      → All (λ ev. Unwanted ev ⊎ (ev.timestamp ≤ b)) events
  weaken b [] h = tt
  weaken b (ev ∷ events) (inl p, h) = (inl p, weaken b events h)
  weaken b (ev ∷ events) (inr p, h) = (inr (omega arith), weaken b events h)

  -- One event more, which is not later or of no type.
  kept-IsLatest :
      (done : List (RuntimeEvent M)) (best ev : RuntimeEvent M)
      → IsLatest done (some best)
      → Unwanted ev ⊎ (ev.timestamp ≤ best.timestamp)
      → IsLatest (done ++ ev ∷ []) (some best)
  kept-IsLatest done best ev (before, after, k, w, b, a) p = (
    before,
    after ++ ev ∷ [],
    ap (λ es. es ++ ev ∷ []) k ∙ append_assoc before (best ∷ after) (ev ∷ []),
    w,
    b,
    All-append (λ e. Unwanted e ⊎ (e.timestamp ≤ best.timestamp)) after (ev ∷ []) a (p, tt),
  )

  -- One event more, of the types and later.
  taken-IsLatest :
      (done : List (RuntimeEvent M)) (ev : RuntimeEvent M)
      → All (λ e. Unwanted e ⊎ (e.timestamp < ev.timestamp)) done
      → is_wanted to_upper types ev ≡ true
      → IsLatest (done ++ ev ∷ []) (some ev)
  taken-IsLatest done ev h w = (done, [], refl, w, h, tt)

  all_earlier :
      (done : List (RuntimeEvent M)) (best ev : RuntimeEvent M)
      → IsLatest done (some best)
      → best.timestamp < ev.timestamp
      → All (λ e. Unwanted e ⊎ (e.timestamp < ev.timestamp)) done
  all_earlier done best ev (before, after, k, w, b, a) l =
      subst (All (λ e. Unwanted e ⊎ (e.timestamp < ev.timestamp))) (sym k) (
        strictly_earlier best.timestamp ev.timestamp (before ++ best ∷ after) l (
          All-append (λ e. Unwanted e ⊎ (e.timestamp ≤ best.timestamp)) before (best ∷ after)
            (weaken best.timestamp before b) (inr (omega arith), a)))

  later_of-IsLatest :
      (done : List (RuntimeEvent M)) (best : Option (RuntimeEvent M)) (ev : RuntimeEvent M)
      → IsLatest done best
      → is_wanted to_upper types ev ≡ true
      → IsLatest (done ++ ev ∷ []) (some (later_of best ev))
  unfolding later_of
  later_of-IsLatest done none ev h w =
      taken-IsLatest done ev (All-inl (λ e. e.timestamp < ev.timestamp) done h) w
  later_of-IsLatest done (some best) ev h w = elim (Bool-cases (ltb best.timestamp ev.timestamp)) [
    | inl e ↦
        rw (e, later_of) (taken-IsLatest done ev (all_earlier done best ev h (ltb→lt _ _ e)) w)
    | inr e ↦ rw (e, later_of) (kept-IsLatest done best ev h (inr (ltb→ge _ _ e)))
  ]

  skipped-IsLatest :
      (done : List (RuntimeEvent M)) (best : Option (RuntimeEvent M)) (ev : RuntimeEvent M)
      → IsLatest done best
      → Unwanted ev
      → IsLatest (done ++ ev ∷ []) best
  skipped-IsLatest done none ev h u = All-append Unwanted done (ev ∷ []) h (u, tt)
  skipped-IsLatest done (some best) ev h u = kept-IsLatest done best ev h (inl u)

  latest_from-IsLatest :
      (done events : List (RuntimeEvent M)) (best : Option (RuntimeEvent M))
      → IsLatest done best
      → IsLatest (done ++ events) (latest_from to_upper types best events)
  unfolding latest_from
  latest_from-IsLatest done [] best h = subst (λ es. IsLatest es best) (sym (append-nil done)) h
  latest_from-IsLatest done (ev ∷ more) best h = elim (Bool-cases (is_wanted to_upper types ev)) [
    | inl w ↦
        rw (w, latest_from)
          (subst (λ es. IsLatest es (latest_from to_upper types (some (later_of best ev)) more))
            (append_assoc done (ev ∷ []) more)
            (latest_from-IsLatest (done ++ ev ∷ []) more (some (later_of best ev))
              (later_of-IsLatest done best ev h w)))
    | inr u ↦
        rw (u, latest_from)
          (subst (λ es. IsLatest es (latest_from to_upper types best more))
            (append_assoc done (ev ∷ []) more)
            (latest_from-IsLatest (done ++ ev ∷ []) more best (skipped-IsLatest done best ev h u)))
  ]

  -- latestByType gives none of the events exactly if none is of the types, less case and blanks at the ends; or
  -- else the first of the latest of the types.
  pub latest_by_type_lem :
      (events : List (RuntimeEvent M)) → IsLatest events (latest_by_type to_upper events types)
  unfolding latest_by_type
  latest_by_type_lem events = latest_from-IsLatest [] events none tt
