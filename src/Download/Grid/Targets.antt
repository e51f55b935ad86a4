-- ===== src/Download/Grid/Targets.antt =====
-- The targets that website/src/components/DownloadSection.tsx lists for a release: supportedTargets.
use shadownet_agent.Common.{
  ◌≡◌, refl, ◌⊎◌, inl, inr, arith, true, false, ◌||◌, Option, none, some, List, [], ◌∷◌, ◌++◌,
  is_empty, All, Bool-cases,
}
use shadownet_agent.Common.Text.{Text, same}
use shadownet_agent.Common.Text.Laws.{same_iff, same_refl}
use shadownet_agent.Download.Grid.{
  artifacts_in, has_tag, add_target, add_targets, supported_targets,
}
use shadownet_agent.Releases.Listing.{LocalRelease, ReleaseArtifact}

-- Each text once.
abbrev pub AreDistinct : List Text → Type 0
AreDistinct [] = Unit
AreDistinct (t ∷ ts) = (has_tag t ts ≡ false) × AreDistinct ts

has_tag-snoc : (t u : Text) (ts : List Text) → has_tag t (ts ++ u ∷ []) ≡ (has_tag t ts || same u t)
has_tag-snoc t u [] = ground arith
has_tag-snoc t u (v ∷ ts) = ground (arith, has_tag-snoc t u ts)

snoc-AreDistinct :
    (t : Text) (ts : List Text) → AreDistinct ts → has_tag t ts ≡ false → AreDistinct (ts ++ t ∷ [])
snoc-AreDistinct t [] d h = (refl, tt)
snoc-AreDistinct t (u ∷ ts) (k, d) h = (
  ground (arith, has_tag-snoc u t ts, same_iff u t, same_iff t u),
  snoc-AreDistinct t ts d (ground arith),
)

add_target-AreDistinct :
    (seen : List Text) (target : Option Text)
    → AreDistinct seen
    → AreDistinct (add_target seen target)
add_target-AreDistinct seen none d = d
add_target-AreDistinct seen (some t) d = elim (Bool-cases (is_empty t || has_tag t seen)) [
  | inl e ↦ rw e d
  | inr e ↦ rw e (snoc-AreDistinct t seen d (ground arith))
]

add_targets-AreDistinct :
    (seen : List Text) (artifacts : List ReleaseArtifact)
    → AreDistinct seen
    → AreDistinct (add_targets seen artifacts)
unfolding add_targets
add_targets-AreDistinct seen [] d = d
add_targets-AreDistinct seen (a ∷ more) d =
    add_targets-AreDistinct (add_target seen a.target) more (add_target-AreDistinct seen a.target d)

has_tag-add_target :
    (t : Text) (seen : List Text) (target : Option Text)
    → has_tag t seen ≡ true
    → has_tag t (add_target seen target) ≡ true
has_tag-add_target t seen none h = h
has_tag-add_target t seen (some u) h = elim (Bool-cases (is_empty u || has_tag u seen)) [
  | inl e ↦ rw e h
  | inr e ↦ rw e (ground (arith, has_tag-snoc t u seen))
]

has_tag-add_targets :
    (t : Text) (seen : List Text) (artifacts : List ReleaseArtifact)
    → has_tag t seen ≡ true
    → has_tag t (add_targets seen artifacts) ≡ true
unfolding add_targets
has_tag-add_targets t seen [] h = h
has_tag-add_targets t seen (a ∷ more) h =
    has_tag-add_targets t (add_target seen a.target) more (has_tag-add_target t seen a.target h)

-- A target that is named is among the texts.
abbrev pub IsNamedIn : List Text → Option Text → Type 0
IsNamedIn ts none = Unit
IsNamedIn ts (some t) = (is_empty t ≡ true) ⊎ (has_tag t ts ≡ true)

add_target-IsNamedIn :
    (t : Text) (seen : List Text) → is_empty t ≡ false → has_tag t (add_target seen (some t)) ≡ true
add_target-IsNamedIn t seen h = elim (Bool-cases (has_tag t seen)) [
  | inl e ↦ rw (h, e) e
  | inr e ↦ rw (h, e) (ground (arith, has_tag-snoc t t seen, same_refl t))
]

add_targets-IsNamedIn :
    (seen : List Text) (artifacts : List ReleaseArtifact)
    → All (λ (a : ReleaseArtifact). IsNamedIn (add_targets seen artifacts) a.target) artifacts
unfolding add_targets
add_targets-IsNamedIn seen [] = tt
add_targets-IsNamedIn seen (a ∷ more) =
    (named a.target, add_targets-IsNamedIn (add_target seen a.target) more)
  where
    named : (target : Option Text) → IsNamedIn (add_targets (add_target seen target) more) target
    named none = tt
    named (some t) = elim (Bool-cases (is_empty t)) [
      | inl e ↦ inl e
      | inr e ↦
          inr
            (has_tag-add_targets t (add_target seen (some t)) more (add_target-IsNamedIn t seen e))
    ]

-- The targets of a release are listed each once, and every target that one of its artifacts names is among them.
pub supported_targets_lem :
    (release : Option LocalRelease)
    → AreDistinct (supported_targets release)
      × All
          (λ (a : ReleaseArtifact). IsNamedIn (supported_targets release) a.target)
          (artifacts_in release)
unfolding supported_targets
supported_targets_lem release = (
  add_targets-AreDistinct [] (artifacts_in release) tt,
  add_targets-IsNamedIn [] (artifacts_in release),
)
