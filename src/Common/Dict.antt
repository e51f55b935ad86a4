-- ===== src/Common/Dict.antt =====
-- A JavaScript `Map` with text keys, in insertion order.
use shadownet_agent.Common.{
  ◌≡◌, refl, Bool, true, false, Option, none, some, List, [], ◌∷◌, if◌then◌else◌, arith, All,
  Bool-cases, subst, inl, inr,
}
use mathlib.Core.Option.{some_inj}
use shadownet_agent.Common.Text.{Text, same}
use shadownet_agent.Common.Text.Laws.{same_iff}

abbrev pub Dict : Type 0 → Type 0
Dict V = List (Text × V)

module _ {V : Type 0} where
  unfoldable pub get : Text → Dict V → Option V
  get key [] = none
  get key ((k, v) ∷ d) = if same k key then some v else get key d

  unfoldable pub set : Text → V → Dict V → Dict V
  set key v [] = (key, v) ∷ []
  set key v ((k, w) ∷ d) = if same k key then (k, v) ∷ d else (k, w) ∷ set key v d

  abbrev pub has : Text → Dict V → Bool
  has key d = elim (get key d) [ none ↦ false | some v ↦ true ]

  pub get-set :
      (key j : Text) (v : V) (d : Dict V)
      → get j (set key v d) ≡ (if same key j then some v else get j d)
  unfolding get set
  get-set key j v [] = refl
  get-set key j v ((k, w) ∷ d) =
      ground (arith, same_iff k key, same_iff k j, same_iff key j, get-set key j v d)

  -- A property of all values.
  abbrev pub Values : (V → Type 0) → Dict V → Type 0
  Values P d = All (λ (e : Text × V). P e.1) d

  pub Values-set :
      (P : V → Type 0) (key : Text) (v : V) (d : Dict V) → P v → Values P d → Values P (set key v d)
  unfolding set
  Values-set P key v [] p h = (p, tt)
  Values-set P key v ((k, w) ∷ d) p (q, h) = ground (arith, Values-set P key v d p h)

  pub Values-get :
      (P : V → Type 0) (key : Text) (v : V) (d : Dict V) → Values P d → get key d ≡ some v → P v
  unfolding get
  Values-get P key v [] h e = ground arith
  Values-get P key v ((k, w) ∷ d) (q, h) e = elim (Bool-cases (same k key)) [
    | inl t ↦ subst P (some_inj.0 (rw t at e)) q
    | inr t ↦ Values-get P key v d h (rw t at e)
  ]
