-- ===== src/Releases/Listing.antt =====
-- getLocalReleases of website/src/lib/releases/local.ts: the releases under public/downloads.
pub mod Artifacts
pub mod Order
use shadownet_agent.Common.{
  ℕ, ◌/◌, Bool, true, false, not, ◌&&◌, ◌||◌, Option, none, some, List, [], ◌∷◌, ◌++◌, map, reverse,
  filter, any, is_empty, if◌then◌else◌,
}
use shadownet_agent.Common.Dict.{Dict, get, set, has}
use shadownet_agent.Common.Int.{ℤ}
use shadownet_agent.Common.Sort.{sort}
use shadownet_agent.Common.Text.{Text, txt, same, starts_with, ends_with, trim, lines_of}
use shadownet_agent.Releases.Names.{
  ArtifactKind, artifact_kind, Role, Checksum, checksum_line, parse_sha256_file_contents,
  parse_role_and_target, release_le,
}

-- An entry of `readdir` with file types.
pub record Entry : Type 0 where
  pub name : Text
  pub is_file : Bool
  pub is_directory : Bool

pub record Stat : Type 0 where
  pub size : ℕ
  pub mtime_ms : ℕ

-- What node gives: the file system (`none` where a call throws), `path.join` of the working
-- directory's and of one part more, and `localeCompare`.
pub record Host : Type 0 where
  pub readdir : Text → Option (List Entry)
  pub read_file : Text → Option Text
  pub stat : Text → Option Stat
  pub downloads_dir : Text
  pub join : Text → Text → Text
  pub collate : Text → Text → ℤ

pub record ReleaseArtifact : Type 0 where
  pub file_name : Text
  pub href : Text
  pub size_bytes : ℕ
  pub kind : ArtifactKind
  pub sha256 : Option Text
  pub sha256_href : Option Text
  pub role : Option Role
  pub target : Option Text

pub record Verification : Type 0 where
  pub checksums_href : Option Text
  pub signature_href : Option Text
  pub key_href : Option Text
  pub key_fingerprint : Option Text
  pub key_fingerprint_href : Option Text

pub record LocalRelease : Type 0 where
  pub tag : Text
  pub build_ref : Option Text
  pub created_at_unix : Option ℕ
  pub artifacts : List ReleaseArtifact
  pub verification : Verification

-- The names of the directories of versions.
unfoldable pub version_names : List Entry → List Text
version_names entries =
    map (λ (e : Entry). e.name)
      (filter (λ (e : Entry). e.is_directory && starts_with e.name (txt "v")) entries)

-- `/downloads/${tag}/${name}`
unfoldable pub download_href : Text → Text → Text
download_href tag name = txt "/downloads/" ++ (tag ++ (txt "/" ++ name))

abbrev pub truthy : Text → Option Text
truthy s = if is_empty s then none else some s

-- `buildRef` and `createdAtUnix`: both undefined where a call throws.
unfoldable pub version_info : Host → Text → Option Text × Option ℕ
version_info host version_file = elim (host.read_file version_file) [
  | none ↦ (none, none)
  | some raw ↦ elim (host.stat version_file) [
    | none ↦ (none, none)
    | some s ↦ (truthy (trim raw), some (s.mtime_ms / 1000))
  ]
]

-- One pass of the loop over checksum files.
unfoldable pub add_sha : Host → Text → Entry → Dict Text → Dict Text
add_sha host dir f shas = elim (f.is_file && ends_with f.name (txt ".sha256")) [
  | false ↦ shas
  | true ↦ elim (host.read_file (host.join dir f.name)) [
    | none ↦ shas
    | some contents ↦ elim (parse_sha256_file_contents contents) [
      | none ↦ shas
      | some parsed ↦ set parsed.file_name parsed.hash shas
    ]
  ]
]

unfoldable pub sha_by_file : Host → Text → List Entry → Dict Text → Dict Text
sha_by_file host dir [] shas = shas
sha_by_file host dir (f ∷ files) shas = sha_by_file host dir files (add_sha host dir f shas)

-- The files that the loop over artifacts does not pass over.
unfoldable pub is_artifact : Entry → Bool
is_artifact f =
    f.is_file
    && not (same f.name (txt "VERSION.txt"))
    && not (
        same f.name (txt "checksums.txt")
        || same f.name (txt "checksums.sig")
        || same f.name (txt "checksums.pub")
        || same f.name (txt "checksums.pub.sha256"))
    && not (ends_with f.name (txt ".sha256"))

unfoldable pub artifact_of : Text → Dict Text → Text → Stat → ReleaseArtifact
artifact_of tag shas name s =
    let parsed = parse_role_and_target tag name in
    record {
      file_name = name;
      href = download_href tag name;
      size_bytes = s.size;
      kind = artifact_kind name;
      sha256 = get name shas;
      sha256_href = if has name shas then some (download_href tag name ++ txt ".sha256") else none;
      role = parsed.0;
      target = parsed.1;
    }

-- The loop over artifacts; `none` where `stat` throws.
unfoldable pub artifacts_of :
    Host → Text → Text → Dict Text → List Entry → Option (List ReleaseArtifact)
artifacts_of host tag dir shas [] = some []
artifacts_of host tag dir shas (f ∷ files) =
    let rest = artifacts_of host tag dir shas files in
    elim (is_artifact f) [
      | false ↦ rest
      | true ↦ elim (host.stat (host.join dir f.name)) [
        | none ↦ none
        | some s ↦ elim rest [
          | none ↦ none
          | some artifacts ↦ some (artifact_of tag shas f.name s ∷ artifacts)
        ]
      ]
    ]

abbrev pub first_line : List Text → Text
first_line [] = []
first_line (l ∷ ls) = l

unfoldable pub key_fingerprint_of : Host → Text → Option Text
key_fingerprint_of host dir = elim (host.read_file (host.join dir (txt "checksums.pub.sha256"))) [
  | none ↦ none
  | some raw ↦ elim (checksum_line (trim (first_line (lines_of (trim raw))))) [
    | none ↦ none
    | some m ↦ some m.hash
  ]
]

-- The link to a file, if the directory has it.
unfoldable pub href_of : Text → List Entry → Text → Option Text
href_of tag files name =
    if any (λ (f : Entry). f.is_file && same f.name name) files
    then some (download_href tag name)
    else none

unfoldable pub verification_of : Host → Text → Text → List Entry → Verification
verification_of host tag dir files = record {
  checksums_href = href_of tag files (txt "checksums.txt");
  signature_href = href_of tag files (txt "checksums.sig");
  key_href = href_of tag files (txt "checksums.pub");
  key_fingerprint = key_fingerprint_of host dir;
  key_fingerprint_href = href_of tag files (txt "checksums.pub.sha256");
}

-- One pass of the loop over the versions; `none` where it throws.
unfoldable pub release_of : Host → Text → Option LocalRelease
release_of host tag =
    let dir = host.join host.downloads_dir tag in
    let info = version_info host (host.join dir (txt "VERSION.txt")) in
    elim (host.readdir dir) [
      | none ↦ none
      | some files ↦ elim (artifacts_of host tag dir (sha_by_file host dir files []) files) [
        | none ↦ none
        | some artifacts ↦ some (record {
          tag = tag;
          build_ref = info.0;
          created_at_unix = info.1;
          artifacts = artifacts;
          verification = verification_of host tag dir files;
        })
      ]
    ]

unfoldable pub releases_of : Host → List Text → Option (List LocalRelease)
releases_of host [] = some []
releases_of host (tag ∷ tags) = elim (release_of host tag) [
  | none ↦ none
  | some r ↦ elim (releases_of host tags) [ none ↦ none | some rs ↦ some (r ∷ rs) ]
]

abbrev pub tag_le : Host → LocalRelease → LocalRelease → Bool
tag_le host a b = release_le host.collate a.tag b.tag

unfoldable pub get_local_releases : Host → List LocalRelease
get_local_releases host = elim (host.readdir host.downloads_dir) [
  | none ↦ []
  | some entries ↦
      elim (releases_of host (sort (release_le host.collate) (version_names entries))) [
        | none ↦ []
        | some releases ↦ reverse (sort (tag_le host) releases)
      ]
]
