-- ===== src/Runtime/Events/Merge.antt =====
-- What mergeEvents of website/src/components/dashboard/RuntimeDashboard.tsx keeps.
use shadownet_agent.Common.{
  ℕ, ◌≤◌, ◌≡◌, refl, sym, ap, subst, ◌∙◌, arith, true, false, Option, none, some, List, [], ◌∷◌,
  ◌++◌, map, take, length, length-take, if◌then◌else◌, All, All-append, All-take, append_assoc,
  option_branch, Bool-cases, inl, inr, none_absurd,
}
use shadownet_agent.Common.Dict.{Dict, get, set}
use shadownet_agent.Common.Pairwise.{
  Pairwise, Pairwise-take, Pairwise-snoc, Pairwise-sort, IsSorted-take,
}
use shadownet_agent.Common.Sort.{sort, IsSorted, sort-IsSorted, All-sort}
use shadownet_agent.Common.Text.Laws.{same_iff}
use shadownet_agent.Common.Text.{Text, txt, same, decimal}
use shadownet_agent.Runtime.Events.{
  RuntimeEvent, event_key, add_event, add_events, newer, merge_events, recent,
}

module _ {M : Type 0} where
  -- Events that mergeEvents tells apart.
  abbrev pub Apart : RuntimeEvent M → RuntimeEvent M → Type 0
  Apart a b = same (event_key a) (event_key b) ≡ false

  Apart-symm : (a b : RuntimeEvent M) → Apart a b → Apart b a
  Apart-symm a b h =
      ground (arith, same_iff (event_key a) (event_key b), same_iff (event_key b) (event_key a))

  values : Dict (RuntimeEvent M) → List (RuntimeEvent M)
  values d = map (λ (e : Text × RuntimeEvent M). e.1) d

  -- The map is keyed by the events' keys.
  Keyed : Dict (RuntimeEvent M) → Type 0
  Keyed d = All (λ (e : Text × RuntimeEvent M). e.0 ≡ event_key e.1) d

  values-set_of_get-none :
      (key : Text) (v : RuntimeEvent M) (d : Dict (RuntimeEvent M))
      → get key d ≡ none
      → values (set key v d) ≡ values d ++ v ∷ []
  unfolding values get set
  values-set_of_get-none key v [] e = refl
  values-set_of_get-none key v ((k, w) ∷ d) e = ground (arith, values-set_of_get-none key v d)

  Keyed-set :
      (v : RuntimeEvent M) (d : Dict (RuntimeEvent M))
      → get (event_key v) d ≡ none
      → Keyed d
      → Keyed (set (event_key v) v d)
  unfolding Keyed get set
  Keyed-set v [] e h = (refl, tt)
  Keyed-set v ((k, w) ∷ d) e (p, h) = elim (Bool-cases (same k (event_key v))) [
    | inl t ↦ ground (arith)
    | inr t ↦ rw t (p, Keyed-set v d (rw t at e) h)
  ]

  Apart-get :
      (v : RuntimeEvent M) (d : Dict (RuntimeEvent M))
      → get (event_key v) d ≡ none
      → Keyed d
      → All (λ w. Apart w v) (values d)
  unfolding Keyed values get
  Apart-get v [] e h = tt
  Apart-get v ((k, w) ∷ d) e (p, h) = elim (Bool-cases (same k (event_key v))) [
    | inl t ↦ ground arith
    | inr t ↦ (subst (λ x. same x (event_key v) ≡ false) p t, Apart-get v d (rw t at e) h)
  ]

  -- Keys that differ, and the events of the source alone.
  record Kept (P : RuntimeEvent M → Type 0) (d : Dict (RuntimeEvent M)) : Type 0 where
    pub keyed : Keyed d
    pub apart : Pairwise Apart (values d)
    pub from : All P (values d)

  add_event-Kept :
      (P : RuntimeEvent M → Type 0) (d : Dict (RuntimeEvent M)) (ev : RuntimeEvent M)
      → P ev
      → Kept P d
      → Kept P (add_event d ev)
  unfolding add_event
  add_event-Kept P d ev p h = option_branch (Kept P) (get (event_key ev) d) known (λ old e. h)
    where
      known : get (event_key ev) d ≡ none → Kept P (set (event_key ev) ev d)
      known e =
          let k = values-set_of_get-none (event_key ev) ev d e in
          record {
            keyed = Keyed-set ev d e h.keyed;
            apart =
                subst (Pairwise Apart) (sym k)
                  (Pairwise-snoc Apart (values d) ev h.apart (Apart-get ev d e h.keyed));
            from = subst (All P) (sym k) (All-append P (values d) (ev ∷ []) h.from (p, tt));
          }

  add_events-Kept :
      (P : RuntimeEvent M → Type 0) (d : Dict (RuntimeEvent M)) (evs : List (RuntimeEvent M))
      → All P evs
      → Kept P d
      → Kept P (add_events d evs)
  unfolding add_events
  add_events-Kept P d [] p h = h
  add_events-Kept P d (ev ∷ evs) (q, p) h =
      add_events-Kept P (add_event d ev) evs p (add_event-Kept P d ev q h)

  newer_trans : (x y z : RuntimeEvent M) → newer x y ≡ true → newer y z ≡ true → newer x z ≡ true
  newer_trans x y z h k = ground arith

  newer_total : (x y : RuntimeEvent M) → newer x y ≡ false → newer y x ≡ true
  newer_total x y h = ground arith

  abbrev pub Anything : RuntimeEvent M → Type 0
  Anything ev = Unit

  pub All-Anything : (evs : List (RuntimeEvent M)) → All Anything evs
  All-Anything [] = tt
  All-Anything (ev ∷ evs) = (tt, All-Anything evs)

  sort-newer : (evs : List (RuntimeEvent M)) → IsSorted newer (sort newer evs)
  sort-newer evs =
      sort-IsSorted newer Anything (λ x y z p q r. newer_trans x y z) (λ x y p q. newer_total x y)
        evs (All-Anything evs)

  -- The merged events are at most 120, from the newest to the oldest, with different keys, and each
  -- has what all the given events have: none is made up.
  pub merge_events_lem :
      (P : RuntimeEvent M → Type 0) (prev incoming : List (RuntimeEvent M))
      → All P prev
      → All P incoming
      → (length (merge_events prev incoming) ≤ 120)
        × IsSorted newer (merge_events prev incoming)
        × Pairwise Apart (merge_events prev incoming)
        × All P (merge_events prev incoming)
  unfolding merge_events values Keyed
  merge_events_lem P prev incoming h k =
      let d = add_events [] (incoming ++ prev) in
      let kept =
        add_events-Kept P [] (incoming ++ prev) (All-append P incoming prev k h)
          (record { keyed = tt; apart = tt; from = tt }) in
      (
        length-take 120 (sort newer (values d)),
        IsSorted-take newer 120 (sort newer (values d)) (sort-newer (values d)),
        Pairwise-take Apart 120 (sort newer (values d))
            (Pairwise-sort Apart newer Apart-symm (values d) kept.apart),
        All-take P 120 (sort newer (values d)) (All-sort newer P (values d) kept.from),
      )

  -- The timeline lists at most `limit` events, from the newest to the oldest.
  pub recent_lem :
      (limit : ℕ) (events : List (RuntimeEvent M))
      → (length (recent limit events) ≤ limit) × IsSorted newer (recent limit events)
  unfolding recent
  recent_lem limit events = (
    length-take limit (sort newer events),
    IsSorted-take newer limit (sort newer events) (sort-newer events),
  )

  -- Two events of one time whose types and messages read the same around a dash have one key.
  event_key-dash :
      (time : ℕ) (a b c : Text) (m n : Option M)
      → event_key
          (record { timestamp = time; kind = a ++ (txt "-" ++ b); message = c; metadata = m })
        ≡ event_key
            (record { timestamp = time; kind = a; message = b ++ (txt "-" ++ c); metadata = n })
  unfolding event_key
  event_key-dash time a b c m n =
      ap (λ (t : Text). decimal time ++ (txt "-" ++ t))
        (append_assoc a (txt "-" ++ b) (txt "-" ++ c)
          ∙ ap (λ (t : Text). a ++ t) (append_assoc (txt "-") b (txt "-" ++ c)))

  add_event_of_same_key :
      (x y : RuntimeEvent M)
      → event_key x ≡ event_key y
      → add_event ((event_key x, x) ∷ []) y ≡ (event_key x, x) ∷ []
  unfolding add_event get
  add_event_of_same_key x y h =
      option_branch (λ (d : Dict (RuntimeEvent M)). d ≡ (event_key x, x) ∷ [])
        (get (event_key y) ((event_key x, x) ∷ []))
        (λ e. none_absurd (
          sym e
          ∙ ap (λ b. if b then some x else none) ((same_iff (event_key x) (event_key y)).1 h)))
        (λ old e. refl)

  -- Of two different events, the type of one ending where the message of the other begins, the
  -- second is lost.
  pub merge_events-lost :
      (time : ℕ) (a b c : Text) (m n : Option M)
      → merge_events [] (
          record { timestamp = time; kind = a ++ (txt "-" ++ b); message = c; metadata = m }
          ∷ record { timestamp = time; kind = a; message = b ++ (txt "-" ++ c); metadata = n }
          ∷ [])
        ≡ record { timestamp = time; kind = a ++ (txt "-" ++ b); message = c; metadata = m } ∷ []
  unfolding merge_events add_events add_event get set sort
  merge_events-lost time a b c m n =
      let x : RuntimeEvent M = record {
        timestamp = time;
        kind = a ++ (txt "-" ++ b);
        message = c;
        metadata = m;
      } in
      let y : RuntimeEvent M = record {
        timestamp = time;
        kind = a;
        message = b ++ (txt "-" ++ c);
        metadata = n;
      } in
      ap
        (λ (d : Dict (RuntimeEvent M)).
          take 120 (sort newer (map (λ (e : Text × RuntimeEvent M). e.1) d)))
        (add_event_of_same_key x y (event_key-dash time a b c m n))
