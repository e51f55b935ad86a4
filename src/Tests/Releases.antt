-- ===== src/Tests/Releases.antt =====
-- Examples for the listing of releases.
use shadownet_agent.Common.Int.{ℤ, pos}
use shadownet_agent.Common.Sort.{sort}
use shadownet_agent.Common.Text.{Text, txt, same}
use shadownet_agent.Common.{
  ℕ, ◌≡◌, refl, Bool, true, false, Option, none, some, List, [], ◌∷◌, ◌++◌, map, filter, replicate,
  All, if◌then◌else◌,
}
use shadownet_agent.Releases.Footer.{ReleaseInfo, get_latest_release, get_latest_release_lem}
use shadownet_agent.Releases.Listing.Artifacts.{WellListed, get_local_releases-WellListed}
use shadownet_agent.Releases.Listing.{
  Entry, Stat, Host, ReleaseArtifact, LocalRelease, version_names, is_artifact, artifacts_of,
  releases_of, get_local_releases,
}
use shadownet_agent.Releases.Names.Order.{semver_le, release_le-semver_le}
use shadownet_agent.Releases.Names.{
  Semver, Role, outside, parse_semver, release_le, parse_role_and_target, strip_archive, tar_gz,
}

abbrev collate : Text → Text → ℤ
collate a b = pos 0

abbrev old_version : Semver
old_version = record { major = 0; minor = 9; patch = 1 }

abbrev new_version : Semver
new_version = record { major = 0; minor = 10; patch = 0 }

release_le-semver_le_example :
    release_le collate (txt "v0.9.1") (txt "v0.10.0") ≡ semver_le old_version new_version
unfolding parse_semver shadownet_agent.Releases.Names.after txt
    shadownet_agent.Releases.Names.digits shadownet_agent.Common.span
    shadownet_agent.Common.Text.is_digit shadownet_agent.Common.Text.number
release_le-semver_le_example =
    release_le-semver_le collate (txt "v0.9.1") (txt "v0.10.0") old_version new_version refl refl

-- Two versions, the older with a program and its checksum.
abbrev a_directory : Text → Entry
a_directory name = record { name = name; is_file = false; is_directory = true }

abbrev a_file : Text → Entry
a_file name = record { name = name; is_file = true; is_directory = false }

abbrev pub program : Text
program = txt "sunlionet-inside-v0.9.1-linux-amd64.tar.gz"

abbrev versions : List Entry
versions = a_directory (txt "v0.9.1") ∷ a_directory (txt "v0.10.0") ∷ a_file (txt "README.md") ∷ []

abbrev files : List Entry
files = a_file program ∷ a_file (program ++ txt ".sha256") ∷ a_file (txt "checksums.txt") ∷ []

abbrev read_dir : Text → Option (List Entry)
read_dir dir =
    if same dir (txt "/d")
    then some versions
    else if same dir (txt "/d/v0.9.1")
    then some files
    else some []

abbrev read_text : Text → Option Text
read_text path =
    if same path (txt "/d/v0.9.1/" ++ (program ++ txt ".sha256"))
    then some (replicate 64 b'A' ++ (txt "  " ++ program))
    else none

abbrev pub host : Host
host = record {
  readdir = read_dir;
  read_file = read_text;
  stat = λ p. some (record { size = 1000; mtime_ms = 5000 });
  downloads_dir = txt "/d";
  join = λ dir name. dir ++ (txt "/" ++ name);
  collate = collate;
}

get_local_releases-WellListed_example : All WellListed (get_local_releases host)
get_local_releases-WellListed_example = get_local_releases-WellListed host

-- Two versions without programs, which tell their revision.
abbrev bare_host : Host
bare_host = record host {
  readdir = λ dir. if same dir (txt "/d") then some versions else some [];
  read_file = λ path. some (txt "abc123");
}

abbrev bare_release : Text → LocalRelease
bare_release tag = record {
  tag = tag;
  build_ref = some (txt "abc123");
  created_at_unix = some 5;
  artifacts = [];
  verification = record {
    checksums_href = none;
    signature_href = none;
    key_href = none;
    key_fingerprint = none;
    key_fingerprint_href = none;
  };
}

abbrev latest : ReleaseInfo
latest = record { version = txt "v0.10.0"; build_ref = some (txt "abc123") }

get_latest_release_lem_example : latest.version ≡ (bare_release (txt "v0.10.0")).tag
unfolding shadownet_agent.Releases.Listing.release_of shadownet_agent.Common.Dict.get
    shadownet_agent.Common.Dict.set shadownet_agent.Common.Sort.insert
    shadownet_agent.Common.Text.ends_with shadownet_agent.Common.Text.is_space
    shadownet_agent.Common.Text.lines_of shadownet_agent.Common.Text.split
    shadownet_agent.Common.Text.split_from shadownet_agent.Common.Text.strip_suffix?
    shadownet_agent.Common.Text.trim shadownet_agent.Common.Text.trim_end
    shadownet_agent.Common.Text.trim_start shadownet_agent.Common.Text.unix_lines
    shadownet_agent.Common.Text.value_from shadownet_agent.Releases.Listing.add_sha
    shadownet_agent.Releases.Listing.artifact_of artifacts_of
    shadownet_agent.Releases.Listing.download_href shadownet_agent.Releases.Listing.href_of
    is_artifact shadownet_agent.Releases.Listing.key_fingerprint_of
    shadownet_agent.Releases.Listing.sha_by_file shadownet_agent.Releases.Listing.verification_of
    shadownet_agent.Releases.Listing.version_info shadownet_agent.Releases.Names.artifact_kind
    shadownet_agent.Releases.Names.checksum_line shadownet_agent.Releases.Names.is_hex
    shadownet_agent.Releases.Names.lower_hex parse_role_and_target
    shadownet_agent.Releases.Names.parse_sha256_file_contents
    shadownet_agent.Releases.Names.role_match strip_archive shadownet_agent.Releases.Names.target_of
    same txt version_names shadownet_agent.Common.Text.starts_with parse_semver
    shadownet_agent.Releases.Names.after shadownet_agent.Releases.Names.digits
    shadownet_agent.Common.span shadownet_agent.Common.Text.is_digit
    shadownet_agent.Common.Text.number get_local_releases releases_of sort
    shadownet_agent.Releases.Names.compare_release_asc shadownet_agent.Releases.Names.compare_semver
    shadownet_agent.Common.Int.sub_ℕ get_latest_release shadownet_agent.Releases.Footer.last
    shadownet_agent.Releases.Footer.release_info
get_latest_release_lem_example =
    get_latest_release_lem bare_host versions (bare_release (txt "v0.10.0"))
      (bare_release (txt "v0.9.1") ∷ []) latest refl
      ((old_version, refl), ((new_version, refl), tt)) refl refl
