-- ===== src/Download/Steps.antt =====
-- The commands that website/src/components/DownloadSection.tsx shows: installSteps.
pub mod Platforms
use shadownet_agent.Common.{
  ℕ, Bool, true, false, ◌&&◌, Option, none, some, List, [], ◌∷◌, ◌++◌, if◌then◌else◌, is_empty,
}
use shadownet_agent.Common.Text.{Text, txt}
use shadownet_agent.Download.Choice.{
  PlatformKey, linux_amd64, linux_arm64, raspberrypi_arm64, android_phone, source,
}
use shadownet_agent.Download.Detection.{DetectedOs, macos}
use shadownet_agent.Releases.Listing.{ReleaseArtifact, Verification}
use shadownet_agent.Releases.Names.{Role, role_name, ArtifactKind, tar_gz, zip, bin}

pub record InstallSteps : Type 0 where
  pub download : Text
  pub verify : Text
  pub install : Text

abbrev nl : Text
nl = 10 ∷ []

abbrev is_tar : ArtifactKind → Bool
is_tar tar_gz = true
is_tar _ = false

-- A link that is there and not empty.
abbrev pub present : Option Text → Option Text
present none = none
present (some t) = if is_empty t then none else some t

abbrev pub is_present : Option Text → Bool
is_present none = false
is_present (some t) = if is_empty t then false else true

-- artifactUrl and shaUrl: nothing before the origin is known.
unfoldable pub artifact_url : Text → Option ReleaseArtifact → Option Text
artifact_url origin none = none
artifact_url origin (some a) = if is_empty origin then none else some (origin ++ a.href)

unfoldable pub sha_url : Text → Option ReleaseArtifact → Option Text
sha_url origin none = none
sha_url origin (some a) =
    if is_empty origin
    then none
    else elim (present a.sha256_href) [ none ↦ none | some href ↦ some (origin ++ href) ]

abbrev pub or_text : Option Text → Text → Text
or_text none t = t
or_text (some s) t = s

-- hasSignature, and sigReady in the commands.
unfoldable pub has_signature : Verification → Bool
has_signature v =
    is_present v.checksums_href && is_present v.signature_href && is_present v.key_href

-- One line for a file that is there, and nothing otherwise.
unfoldable pub wget_line : Text → Text → Option Text → Text
wget_line name origin href = elim (present href) [
  | none ↦ []
  | some h ↦ txt "wget -O " ++ (name ++ (txt " " ++ (origin ++ (h ++ nl))))
]

-- One line for a file, with a placeholder where it is not there.
unfoldable pub curl_line : Text → Text → Option Text → Text
curl_line placeholder origin href = elim (present href) [
  | none ↦ txt "curl -fL -O " ++ (placeholder ++ nl)
  | some h ↦ txt "curl -fL -O " ++ (origin ++ (h ++ nl))
]

unfoldable pub fetch_lines : Text → Option Text → Text
fetch_lines url sha =
    txt "curl -fL -O "
    ++ (url ++ (nl ++ (txt "curl -fL -O " ++ (or_text sha (txt "<sha256-url>") ++ nl))))

abbrev pub cosign : Text
cosign = txt "cosign verify-blob --key checksums.pub --signature checksums.sig checksums.txt"

unfoldable pub android_steps : Text → Verification → Text → Option Text → InstallSteps
android_steps origin v url sha = record {
  download =
      txt "wget -O app-release.apk "
      ++ (url
          ++ (nl
              ++ (txt "wget -O app-release.apk.sha256 "
                  ++ (or_text sha (txt "<sha256-url>")
                      ++ (nl
                          ++ (wget_line (txt "checksums.txt") origin v.checksums_href
                              ++ (wget_line (txt "checksums.sig") origin v.signature_href
                                  ++ wget_line (txt "checksums.pub") origin v.key_href)))))));
  verify =
      txt "sha256sum -c app-release.apk.sha256" ++ (if has_signature v then nl ++ cosign else []);
  install = txt "adb install -r app-release.apk";
}

unfoldable pub linux_steps :
    Text → Verification → Role → ReleaseArtifact → Text → Option Text → InstallSteps
linux_steps origin v role a url sha = record {
  download =
      fetch_lines url sha
      ++ (curl_line (txt "<checksums-url>") origin v.checksums_href
          ++ (curl_line (txt "<signature-url>") origin v.signature_href
              ++ curl_line (txt "<cosign-pubkey-url>") origin v.key_href));
  verify = txt "sha256sum -c " ++ (a.file_name ++ (txt ".sha256" ++ (nl ++ cosign)));
  install =
      if is_tar a.kind
      then txt "tar -xzf "
        ++ (a.file_name ++ (nl ++ (txt "sudo ./install-linux.sh " ++ role_name role)))
      else txt "chmod +x " ++ (a.file_name ++ (nl ++ (txt "./" ++ a.file_name)));
}

unfoldable pub macos_steps : Role → ReleaseArtifact → Text → Option Text → InstallSteps
macos_steps role a url sha = record {
  download = fetch_lines url sha;
  verify = txt "shasum -a 256 -c " ++ (a.file_name ++ txt ".sha256");
  install =
      if is_tar a.kind
      then txt "tar -xzf "
        ++ (a.file_name
            ++ (nl
                ++ (txt "./sunlionet-"
                    ++ (role_name role ++ (txt " || ./shadownet-" ++ role_name role)))))
      else txt "./" ++ a.file_name;
}

abbrev other_steps : DetectedOs → InstallSteps → Option InstallSteps
other_steps DetectedOs.macos steps = some steps
other_steps _ steps = none

unfoldable pub steps_for :
    PlatformKey
    → DetectedOs
    → Text
    → Verification
    → Role
    → ReleaseArtifact
    → Text
    → Option Text
    → Option InstallSteps
steps_for android_phone os origin v role a url sha = some (android_steps origin v url sha)
steps_for linux_amd64 os origin v role a url sha = some (linux_steps origin v role a url sha)
steps_for linux_arm64 os origin v role a url sha = some (linux_steps origin v role a url sha)
steps_for raspberrypi_arm64 os origin v role a url sha = some (linux_steps origin v role a url sha)
steps_for _ os origin v role a url sha = other_steps os (macos_steps role a url sha)

-- installSteps
unfoldable pub install_steps :
    PlatformKey
    → DetectedOs
    → Text
    → Verification
    → Role
    → Option ReleaseArtifact
    → Option InstallSteps
install_steps platform os origin v role none = none
install_steps platform os origin v role (some a) = elim (artifact_url origin (some a)) [
  | none ↦ none
  | some url ↦ steps_for platform os origin v role a url (sha_url origin (some a))
]
