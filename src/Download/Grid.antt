-- ===== src/Download/Grid.antt =====
-- The platform grid of website/src/components/DownloadSection.tsx, and the texts and links that depend on
-- the release and the detection.
pub mod Targets
use shadownet_agent.Common.{
  ℕ, ◌≡◌, ◌≢◌, refl, sym, ap, subst, ◌∙◌, ◌⊎◌, inl, inr, arith, Bool, true, false, not, ◌&&◌, ◌||◌,
  Option, none, some, List, [], ◌∷◌, ◌++◌, ◌==◌, if◌then◌else◌, is_empty, length, All, any, find,
  Bool-cases, take, filter, ◌*◌,
}
use shadownet_agent.Common.Text.{Text, txt, same, trim, Unicode}
use shadownet_agent.Download.Choice.{
  PlatformKey, linux_amd64, linux_arm64, raspberrypi_arm64, android_phone, source, unknown, or_else,
  find_artifact, is_apk, android_artifact, recommended_artifact, effective_platform,
}
use shadownet_agent.Download.Detection.{DetectedArch, arm64, amd64}
use shadownet_agent.Links.{UiLang, en, fa}
use shadownet_agent.Releases.Listing.{LocalRelease, ReleaseArtifact}
use shadownet_agent.Releases.Names.{Role, inside, outside}

-- platformLabel
unfoldable pub platform_label : PlatformKey → Text
platform_label linux_amd64 = txt "Linux x86_64"
platform_label linux_arm64 = txt "Linux arm64"
platform_label raspberrypi_arm64 = txt "Raspberry Pi (ARM64)"
platform_label android_phone = txt "Android (Termux)"
platform_label source = txt "Source code"
platform_label PlatformKey.unknown = txt "Unknown"

-- effectivePlatformLabel
unfoldable pub effective_label : PlatformKey → Text
effective_label PlatformKey.unknown = txt "Choose a platform"
effective_label platform = platform_label platform

pub record PlatformChoice : Type 0 where
  pub key : PlatformKey
  pub target : Option Text

-- platformChoices, without their descriptions.
abbrev pub platform_choices : List PlatformChoice
platform_choices =
    record { key = linux_amd64; target = some (txt "linux-amd64") }
    ∷ record { key = linux_arm64; target = some (txt "linux-arm64") }
    ∷ record { key = raspberrypi_arm64; target = some (txt "linux-arm64") }
    ∷ record { key = android_phone; target = none }
    ∷ record { key = source; target = none }
    ∷ []

abbrev pub artifacts_in : Option LocalRelease → List ReleaseArtifact
artifacts_in none = []
artifacts_in (some release) = release.artifacts

-- `p.target ? findArtifact(selectedRelease, role, p.target) : null`
abbrev pub target_artifact : Option LocalRelease → Role → Option Text → Option ReleaseArtifact
target_artifact release role none = none
target_artifact release role (some target) =
    if is_empty target then none else find_artifact (artifacts_in release) role target

unfoldable pub key_artifact :
    Option LocalRelease → Role → PlatformKey → Option Text → Option ReleaseArtifact
key_artifact release role source target = none
key_artifact release role android_phone target = android_artifact (artifacts_in release) role
key_artifact release role raspberrypi_arm64 target =
    find_artifact (artifacts_in release) inside (txt "linux-arm64")
key_artifact release role _ target = target_artifact release role target

-- The artifact of a cell of the grid.
abbrev pub grid_artifact : Option LocalRelease → Role → PlatformChoice → Option ReleaseArtifact
grid_artifact release role p = key_artifact release role p.key p.target

abbrev pub has_tag : Text → List Text → Bool
has_tag target seen = any (λ (t : Text). same t target) seen

abbrev pub add_target : List Text → Option Text → List Text
add_target seen none = seen
add_target seen (some target) =
    if is_empty target || has_tag target seen then seen else seen ++ target ∷ []

-- `Array.from(new Set(artifacts.map((a) => a.target).filter(Boolean)))`; `seen` is the set so far.
unfoldable pub add_targets : List Text → List ReleaseArtifact → List Text
add_targets seen [] = seen
add_targets seen (a ∷ more) = add_targets (add_target seen a.target) more

-- supportedTargets
unfoldable pub supported_targets : Option LocalRelease → List Text
supported_targets release = add_targets [] (artifacts_in release)

-- releaseArtifactCount
unfoldable pub release_artifact_count : Option LocalRelease → ℕ
release_artifact_count release = length (artifacts_in release)

abbrev pub github_repo : Text
github_repo = txt "https://github.com/kaveh8866/sunlionet-core"

unfoldable pub release_page_url : Option LocalRelease → Text
release_page_url none = github_repo ++ txt "/releases"
release_page_url (some release) = github_repo ++ txt "/releases/tag/" ++ release.tag

unfoldable pub source_tarball_url : Option LocalRelease → Text
source_tarball_url none = github_repo ++ txt "/archive/refs/heads/main.tar.gz"
source_tarball_url (some release) =
    github_repo ++ txt "/archive/refs/tags/" ++ release.tag ++ txt ".tar.gz"

-- createdAt; `iso_date` is what Date makes of a time in milliseconds, `none` where it throws.
unfoldable pub format_date : (ℕ → Option Text) → Option ℕ → Option Text
format_date iso_date none = none
format_date iso_date (some unix) =
    if unix == 0
    then none
    else elim (iso_date (unix * 1000)) [ none ↦ none | some text ↦ some (take 10 text) ]

abbrev arch_suffix : DetectedArch → Text
arch_suffix arm64 = txt " • arm64"
arch_suffix amd64 = txt " • amd64"
arch_suffix _ = []

-- detectionSummary
unfoldable pub detection_summary : Bool → Text → DetectedArch → Text
detection_summary supported label arch =
    (if supported then label else txt "Unknown") ++ arch_suffix arch

-- The grid and the recommendation for a platform that is chosen agree in the inside role. In the outside role
-- they agree too, but for the Raspberry Pi, where the grid has the artifact of the inside role.
pub grid-recommended :
    (release : LocalRelease) (auto : PlatformKey)
    → All
        (λ (p : PlatformChoice).
          grid_artifact (some release) inside p
          ≡ recommended_artifact (some release) (effective_platform p.key auto) inside)
        platform_choices
      × All
          (λ (p : PlatformChoice).
            (grid_artifact (some release) outside p
              ≡ recommended_artifact (some release) (effective_platform p.key auto) outside)
            ⊎ ((p.key ≡ raspberrypi_arm64)
                × (grid_artifact (some release) outside p ≡ grid_artifact (some release) inside p)))
          platform_choices
unfolding key_artifact recommended_artifact effective_platform txt android_artifact
grid-recommended release auto = (
  (refl, (refl, (refl, (refl, (refl, tt))))),
  (inl refl, (inl refl, (inr (refl, refl), (inl refl, (inl refl, tt))))),
)
