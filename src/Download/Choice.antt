-- ===== src/Download/Choice.antt =====
-- Which artifact website/src/components/DownloadSection.tsx recommends.
pub mod Recommended
use shadownet_agent.Common.{
  ℕ, Bool, true, false, not, ◌&&◌, ◌||◌, Option, none, some, List, [], ◌∷◌, ◌++◌, find,
  if◌then◌else◌, is_empty,
}
use shadownet_agent.Common.Text.{Text, txt, same, includes, ends_with}
use shadownet_agent.Download.Detection.{
  DetectedOs, DetectedArch, android, raspberrypi, linux, arm64, amd64,
}
use shadownet_agent.Releases.Listing.{LocalRelease, ReleaseArtifact}
use shadownet_agent.Releases.Names.{Role, inside, outside}

pub data PlatformKey : Type 0 where
  linux_amd64 linux_arm64 raspberrypi_arm64 android_phone source unknown : PlatformKey

abbrev linux_platform : DetectedArch → PlatformKey
linux_platform arm64 = linux_arm64
linux_platform amd64 = linux_amd64
linux_platform _ = PlatformKey.unknown

-- pickPlatform
unfoldable pub pick_platform : DetectedOs → DetectedArch → PlatformKey
pick_platform DetectedOs.android arch = android_phone
pick_platform DetectedOs.raspberrypi arch = raspberrypi_arm64
pick_platform DetectedOs.linux arch = linux_platform arch
pick_platform _ arch = PlatformKey.unknown

-- autoPlatform
abbrev pub auto_platform : Bool → DetectedOs → DetectedArch → PlatformKey
auto_platform supported os arch = if supported then pick_platform os arch else PlatformKey.unknown

-- effectivePlatform
unfoldable pub effective_platform : PlatformKey → PlatformKey → PlatformKey
effective_platform PlatformKey.unknown auto = auto
effective_platform manual auto = manual

abbrev pub or_else {ℓ} : {A : Type ℓ} → Option A → Option A → Option A
or_else none o = o
or_else (some a) o = some a

abbrev pub first_release : List LocalRelease → Option LocalRelease
first_release [] = none
first_release (r ∷ rs) = some r

-- selectedRelease
unfoldable pub selected_release : List LocalRelease → Text → Option LocalRelease
selected_release releases selected_tag =
    or_else (find (λ (r : LocalRelease). same r.tag selected_tag) releases) (first_release releases)

abbrev pub has_role : Role → Option Role → Bool
has_role inside (some inside) = true
has_role outside (some outside) = true
has_role _ _ = false

abbrev pub has_target : Text → Option Text → Bool
has_target target none = false
has_target target (some t) = same t target

-- findArtifact
unfoldable pub find_artifact : List ReleaseArtifact → Role → Text → Option ReleaseArtifact
find_artifact artifacts role target =
    or_else
      (find (λ (a : ReleaseArtifact). has_role role a.role && has_target target a.target) artifacts)
      (find (λ (a : ReleaseArtifact). has_role role a.role && includes a.file_name target)
        artifacts)

unfoldable pub is_apk : Text → Bool
is_apk file_name =
    same file_name (txt "app-release.apk") || ends_with file_name (txt "-app-release.apk")

-- The package of the application, or else the command line program.
unfoldable pub android_artifact : List ReleaseArtifact → Role → Option ReleaseArtifact
android_artifact artifacts outside = none
android_artifact artifacts inside =
    or_else (find (λ (a : ReleaseArtifact). is_apk a.file_name) artifacts)
      (find_artifact artifacts inside (txt "android-arm64"))

-- recommendedArtifact
unfoldable pub recommended_artifact :
    Option LocalRelease → PlatformKey → Role → Option ReleaseArtifact
recommended_artifact none platform role = none
recommended_artifact (some release) linux_amd64 role =
    find_artifact release.artifacts role (txt "linux-amd64")
recommended_artifact (some release) linux_arm64 role =
    find_artifact release.artifacts role (txt "linux-arm64")
recommended_artifact (some release) raspberrypi_arm64 role =
    find_artifact release.artifacts role (txt "linux-arm64")
recommended_artifact (some release) android_phone role = android_artifact release.artifacts role
recommended_artifact (some release) _ role = none

pub data SupportLevel : Type 0 where
  stable experimental planned unsupported : SupportLevel

-- The level of recommendedSupport.
unfoldable pub recommended_support : PlatformKey → Role → SupportLevel
recommended_support android_phone outside = unsupported
recommended_support android_phone inside = experimental
recommended_support raspberrypi_arm64 role = experimental
recommended_support linux_amd64 role = stable
recommended_support linux_arm64 role = stable
recommended_support _ role = unsupported
