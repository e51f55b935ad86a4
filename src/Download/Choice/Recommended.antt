-- ===== src/Download/Choice/Recommended.antt =====
-- What website/src/components/DownloadSection.tsx recommends comes from the listed releases, and
-- suits the chosen role.
use mathlib.Core.Option.{some_inj}
use shadownet_agent.Common.{
  ◌≡◌, refl, subst, ◌⊎◌, inl, inr, arith, Bool, true, false, ◌&&◌, Option, none, some, List, [],
  ◌∷◌, find, All, Bool-cases, none_absurd,
}
use shadownet_agent.Common.Text.{Text, txt, same, includes}
use shadownet_agent.Download.Choice.{
  PlatformKey, linux_amd64, linux_arm64, raspberrypi_arm64, android_phone, source, or_else,
  first_release, selected_release, has_role, has_target, find_artifact, is_apk, android_artifact,
  recommended_artifact,
}
use shadownet_agent.Download.Detection.{DetectedOs, Navigator, detect_from_navigator}
use shadownet_agent.Releases.Listing.Artifacts.{WellListed, IsServed, get_local_releases-WellListed}
use shadownet_agent.Releases.Listing.{Host, LocalRelease, ReleaseArtifact, get_local_releases}
use shadownet_agent.Releases.Names.{Role, inside, outside}

pub find_lem :
    {A : Type 0} (P : A → Type 0) (t : A → Bool) (xs : List A) (a : A)
    → All P xs
    → find t xs ≡ some a
    → P a × (t a ≡ true)
find_lem P t [] a h e = none_absurd e
find_lem P t (x ∷ xs) a (p, h) e = elim (Bool-cases (t x)) [
  | inl k ↦ subst (λ y. P y × (t y ≡ true)) (some_inj.0 (rw k at e)) (p, k)
  | inr k ↦ find_lem P t xs a h (rw k at e)
]

or_else_lem :
    {A : Type 0} (P : A → Type 0) (o p : Option A) (a : A)
    → ((b : A) → o ≡ some b → P b)
    → ((b : A) → p ≡ some b → P b)
    → or_else o p ≡ some a
    → P a
or_else_lem P none p a h k e = k a e
or_else_lem P (some b) p a h k e = h a e

find_artifact_lem :
    (P : ReleaseArtifact → Type 0) (artifacts : List ReleaseArtifact) (role : Role) (target : Text)
    (a : ReleaseArtifact)
    → All P artifacts
    → find_artifact artifacts role target ≡ some a
    → P a × (has_role role a.role ≡ true)
unfolding find_artifact
find_artifact_lem P artifacts role target a h =
    or_else_lem (λ (b : ReleaseArtifact). P b × (has_role role b.role ≡ true))
      (find (λ (b : ReleaseArtifact). has_role role b.role && has_target target b.target) artifacts)
      (find (λ (b : ReleaseArtifact). has_role role b.role && includes b.file_name target)
        artifacts)
      a (λ b e. let (p, t) = find_lem P _ artifacts b h e in (p, left (has_role role b.role) _ t))
      (λ b e. let (p, t) = find_lem P _ artifacts b h e in (p, left (has_role role b.role) _ t))
  where
    left : (x y : Bool) → (x && y) ≡ true → x ≡ true
    left x y t = ground arith

-- On a phone the package of the application is recommended whatever its name says of a role.
abbrev pub Suits : PlatformKey → Role → ReleaseArtifact → Type 0
Suits android_phone role a =
    (role ≡ inside) × ((is_apk a.file_name ≡ true) ⊎ (has_role role a.role ≡ true))
Suits platform role a = has_role role a.role ≡ true

android_artifact_lem :
    (P : ReleaseArtifact → Type 0) (artifacts : List ReleaseArtifact) (role : Role)
    (a : ReleaseArtifact)
    → All P artifacts
    → android_artifact artifacts role ≡ some a
    → P a × Suits android_phone role a
unfolding android_artifact
android_artifact_lem P artifacts outside a h e = none_absurd e
android_artifact_lem P artifacts inside a h e =
    or_else_lem (λ (b : ReleaseArtifact). P b × Suits android_phone inside b)
      (find (λ (b : ReleaseArtifact). is_apk b.file_name) artifacts)
      (find_artifact artifacts inside (txt "android-arm64")) a
      (λ b e. let (p, t) = find_lem P _ artifacts b h e in (p, (refl, inl t)))
      (λ b e.
        let (p, t) = find_artifact_lem P artifacts inside (txt "android-arm64") b h e in
        (p, (refl, inr t)))
      e

recommended_artifact_lem :
    (P : ReleaseArtifact → Type 0) (r : LocalRelease) (platform : PlatformKey) (role : Role)
    (a : ReleaseArtifact)
    → All P r.artifacts
    → recommended_artifact (some r) platform role ≡ some a
    → P a × Suits platform role a
unfolding recommended_artifact
recommended_artifact_lem P r linux_amd64 role a h e =
    find_artifact_lem P r.artifacts role (txt "linux-amd64") a h e
recommended_artifact_lem P r linux_arm64 role a h e =
    find_artifact_lem P r.artifacts role (txt "linux-arm64") a h e
recommended_artifact_lem P r raspberrypi_arm64 role a h e =
    find_artifact_lem P r.artifacts role (txt "linux-arm64") a h e
recommended_artifact_lem P r android_phone role a h e =
    android_artifact_lem P r.artifacts role a h e
recommended_artifact_lem P r source role a h e = none_absurd e
recommended_artifact_lem P r PlatformKey.unknown role a h e = none_absurd e

first_release_lem :
    (P : LocalRelease → Type 0) (rs : List LocalRelease) (r : LocalRelease)
    → All P rs
    → first_release rs ≡ some r
    → P r
first_release_lem P [] r h e = none_absurd e
first_release_lem P (x ∷ xs) r (p, h) e = subst P (some_inj.0 e) p

selected_release_lem :
    (P : LocalRelease → Type 0) (rs : List LocalRelease) (tag : Text) (r : LocalRelease)
    → All P rs
    → selected_release rs tag ≡ some r
    → P r
unfolding selected_release
selected_release_lem P rs tag r h =
    or_else_lem P (find (λ (x : LocalRelease). same x.tag tag) rs) (first_release rs) r
      (λ b e. (find_lem P _ rs b h e).0) (λ b e. first_release_lem P rs b h e)

-- What is recommended from the listed releases has the address of its file under the selected
-- release, a checksum of 64 hexadecimal digits exactly if it has the link to it, and the role that
-- was chosen; on a phone it is for the inside role, the application's package if there is one.
pub recommended-IsServed :
    (host : Host) (selected_tag : Text) (r : LocalRelease) (platform : PlatformKey) (role : Role)
    (a : ReleaseArtifact)
    → selected_release (get_local_releases host) selected_tag ≡ some r
    → recommended_artifact (some r) platform role ≡ some a
    → IsServed r.tag a × Suits platform role a
recommended-IsServed host selected_tag r platform role a e k =
    recommended_artifact_lem (IsServed r.tag) r platform role a
      (selected_release_lem WellListed (get_local_releases host) selected_tag r
        (get_local_releases-WellListed host) e)
      k

unfoldable pub is_raspberrypi : DetectedOs → Bool
is_raspberrypi DetectedOs.raspberrypi = true
is_raspberrypi _ = false

-- No machine is detected as a Raspberry Pi, whatever the browser tells.
pub os-raspberrypi :
    (to_lower : Text → Text) (nav : Option Navigator)
    → is_raspberrypi (detect_from_navigator to_lower nav).os ≡ false
unfolding detect_from_navigator is_raspberrypi
os-raspberrypi to_lower none = refl
os-raspberrypi to_lower (some nav) = ground arith
