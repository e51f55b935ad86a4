-- ===== src/Download/Steps/Platforms.antt =====
-- For which platforms website/src/components/DownloadSection.tsx shows commands.
use shadownet_agent.Common.{◌≡◌, refl, Option, none, some, none_absurd}
use shadownet_agent.Common.Text.{Text}
use shadownet_agent.Download.Choice.{
  PlatformKey, linux_amd64, linux_arm64, raspberrypi_arm64, android_phone, source,
  recommended_artifact,
}
use shadownet_agent.Download.Detection.{DetectedOs}
use shadownet_agent.Download.Steps.{
  InstallSteps, artifact_url, sha_url, android_steps, linux_steps, steps_for, install_steps,
}
use shadownet_agent.Releases.Listing.{LocalRelease, ReleaseArtifact, Verification}
use shadownet_agent.Releases.Names.{Role}

-- The commands of a platform; `none` for those with no recommendation.
abbrev pub platform_steps :
    PlatformKey
    → Text
    → Verification
    → Role
    → ReleaseArtifact
    → Text
    → Option Text
    → Option InstallSteps
platform_steps android_phone origin v role a url sha = some (android_steps origin v url sha)
platform_steps linux_amd64 origin v role a url sha = some (linux_steps origin v role a url sha)
platform_steps linux_arm64 origin v role a url sha = some (linux_steps origin v role a url sha)
platform_steps raspberrypi_arm64 origin v role a url sha =
    some (linux_steps origin v role a url sha)
platform_steps _ origin v role a url sha = none

steps_of_recommended :
    (release : Option LocalRelease) (platform : PlatformKey) (os : DetectedOs) (origin : Text)
    (v : Verification) (role : Role) (a : ReleaseArtifact) (url : Text) (sha : Option Text)
    → recommended_artifact release platform role ≡ some a
    → steps_for platform os origin v role a url sha
      ≡ platform_steps platform origin v role a url sha
unfolding recommended_artifact steps_for
steps_of_recommended none linux_amd64 os origin v role a url sha e = refl
steps_of_recommended none linux_arm64 os origin v role a url sha e = refl
steps_of_recommended none raspberrypi_arm64 os origin v role a url sha e = refl
steps_of_recommended none android_phone os origin v role a url sha e = refl
steps_of_recommended none source os origin v role a url sha e = none_absurd e
steps_of_recommended none PlatformKey.unknown os origin v role a url sha e = none_absurd e
steps_of_recommended (some r) linux_amd64 os origin v role a url sha e = refl
steps_of_recommended (some r) linux_arm64 os origin v role a url sha e = refl
steps_of_recommended (some r) raspberrypi_arm64 os origin v role a url sha e = refl
steps_of_recommended (some r) android_phone os origin v role a url sha e = refl
steps_of_recommended (some r) source os origin v role a url sha e = none_absurd e
steps_of_recommended (some r) PlatformKey.unknown os origin v role a url sha e = none_absurd e

-- The commands for a recommended artifact are those of the phone or of Linux, whatever system was
-- detected: those for macOS are never shown.
pub install_steps-recommended :
    (release : Option LocalRelease) (platform : PlatformKey) (os : DetectedOs) (origin : Text)
    (v : Verification) (role : Role) (a : ReleaseArtifact) (url : Text)
    → recommended_artifact release platform role ≡ some a
    → artifact_url origin (some a) ≡ some url
    → install_steps platform os origin v role (recommended_artifact release platform role)
      ≡ platform_steps platform origin v role a url (sha_url origin (some a))
unfolding install_steps
install_steps-recommended release platform os origin v role a url e k = rw e (
    rw (k, install_steps)
      (steps_of_recommended release platform os origin v role a url (sha_url origin (some a)) e))
