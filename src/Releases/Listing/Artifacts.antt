-- ===== src/Releases/Listing/Artifacts.antt =====
-- The artifacts that getLocalReleases of website/src/lib/releases/local.ts lists, and their
-- checksums.
use shadownet_agent.Common.{
  ◌≡◌, refl, sym, ap, subst, ◌∙◌, inl, inr, arith, true, false, ◌&&◌, if◌then◌else◌, Option, none,
  some, List, [], ◌∷◌, ◌++◌, map, filter, All, All-reverse, Bool-cases, Option-cases, none_absurd,
}
use mathlib.Core.Option.{some_inj}
use shadownet_agent.Common.Dict.{Dict, get, Values, Values-set, Values-get}
use shadownet_agent.Common.Sort.{sort, All-sort}
use shadownet_agent.Common.Text.{Text, txt, ends_with}
use shadownet_agent.Releases.Listing.{
  Entry, Stat, Host, ReleaseArtifact, LocalRelease, download_href, add_sha, sha_by_file,
  is_artifact, artifact_of, artifacts_of, release_of, releases_of, tag_le, get_local_releases,
  version_names,
}
use shadownet_agent.Releases.Names.{
  parse_sha256_file_contents, parse_sha256_file_contents, release_le,
}
use shadownet_agent.Releases.Names.Digest.{IsDigest, parse_sha256-IsDigest}

add_sha-IsDigest :
    (host : Host) (dir : Text) (f : Entry) (shas : Dict Text)
    → Values IsDigest shas
    → Values IsDigest (add_sha host dir f shas)
unfolding add_sha
add_sha-IsDigest host dir f shas h =
    elim (Bool-cases (f.is_file && ends_with f.name (txt ".sha256"))) [
      | inl t ↦ elim (Option-cases (host.read_file (host.join dir f.name))) [
        | inl e ↦ rw (t, e, add_sha) h
        | inr (contents, e) ↦ elim (Option-cases (parse_sha256_file_contents contents)) [
          | inl k ↦ rw (t, e, k, add_sha) h
          | inr (m, k) ↦
              rw (t, e, k, add_sha)
                (Values-set IsDigest m.file_name m.hash shas (parse_sha256-IsDigest contents m k) h)
        ]
      ]
      | inr t ↦ rw (t, add_sha) h
    ]

sha_by_file-IsDigest :
    (host : Host) (dir : Text) (files : List Entry) (shas : Dict Text)
    → Values IsDigest shas
    → Values IsDigest (sha_by_file host dir files shas)
unfolding sha_by_file
sha_by_file-IsDigest host dir [] shas h = h
sha_by_file-IsDigest host dir (f ∷ files) shas h =
    sha_by_file-IsDigest host dir files (add_sha host dir f shas)
      (add_sha-IsDigest host dir f shas h)

-- A checksum is shown with a link to the file it was read from, and only then.
abbrev pub Checked : Text → Option Text → Option Text → Type 0
Checked href none sha256_href = sha256_href ≡ none
Checked href (some hash) sha256_href = IsDigest hash × (sha256_href ≡ some (href ++ txt ".sha256"))

-- An artifact as it should be listed under a tag.
abbrev pub IsServed : Text → ReleaseArtifact → Type 0
IsServed tag a =
    (a.href ≡ download_href tag a.file_name)
    × (ends_with a.file_name (txt ".sha256") ≡ false)
    × Checked a.href a.sha256 a.sha256_href

abbrev pub WellListed : LocalRelease → Type 0
WellListed r = All (IsServed r.tag) r.artifacts

Checked-get :
    (href : Text) (o : Option Text)
    → ((hash : Text) → o ≡ some hash → IsDigest hash)
    → Checked href o
        (if elim o [ none ↦ false | some v ↦ true ] then some (href ++ txt ".sha256") else none)
Checked-get href none h = refl
Checked-get href (some hash) h = (h hash refl, refl)

artifact_of-IsServed :
    (tag : Text) (f : Entry) (shas : Dict Text) (s : Stat)
    → Values IsDigest shas
    → is_artifact f ≡ true
    → IsServed tag (artifact_of tag shas f.name s)
unfolding artifact_of is_artifact
artifact_of-IsServed tag f shas s h t = (
  refl,
  ground arith,
  Checked-get (download_href tag f.name) (get f.name shas)
      (λ hash e. Values-get IsDigest f.name hash shas h e),
)

artifacts_of-IsServed :
    (host : Host) (tag dir : Text) (shas : Dict Text) (files : List Entry)
    (artifacts : List ReleaseArtifact)
    → Values IsDigest shas
    → artifacts_of host tag dir shas files ≡ some artifacts
    → All (IsServed tag) artifacts
unfolding artifacts_of
artifacts_of-IsServed host tag dir shas [] artifacts h e =
    subst (All (IsServed tag)) (some_inj.0 e) tt
artifacts_of-IsServed host tag dir shas (f ∷ files) artifacts h e =
    elim (Bool-cases (is_artifact f)) [
      | inr t ↦
          artifacts_of-IsServed host tag dir shas files artifacts h (rw (t, artifacts_of) at e)
      | inl t ↦ elim (Option-cases (host.stat (host.join dir f.name))) [
        | inl k ↦ none_absurd (rw (t, k, artifacts_of) at e)
        | inr (s, k) ↦ elim (Option-cases (artifacts_of host tag dir shas files)) [
          | inl l ↦ none_absurd (rw (t, k, l, artifacts_of) at e)
          | inr (rest, l) ↦
              subst (All (IsServed tag)) (some_inj.0 (rw (t, k, l, artifacts_of) at e)) (
                artifact_of-IsServed tag f shas s h t,
                artifacts_of-IsServed host tag dir shas files rest h l,
              )
        ]
      ]
    ]

-- The artifacts of a directory are its files other than VERSION.txt, the list of checksums with
-- its signature and key, and the checksum files: each is listed once, in the directory's order.
pub map-artifacts_of :
    (host : Host) (tag dir : Text) (shas : Dict Text) (files : List Entry)
    (artifacts : List ReleaseArtifact)
    → artifacts_of host tag dir shas files ≡ some artifacts
    → map (λ (a : ReleaseArtifact). a.file_name) artifacts
      ≡ map (λ (f : Entry). f.name) (filter is_artifact files)
unfolding artifacts_of artifact_of
map-artifacts_of host tag dir shas [] artifacts e =
    ap (map (λ (a : ReleaseArtifact). a.file_name)) (sym (some_inj.0 e))
map-artifacts_of host tag dir shas (f ∷ files) artifacts e = elim (Bool-cases (is_artifact f)) [
  | inr t ↦ rw t (map-artifacts_of host tag dir shas files artifacts (rw (t, artifacts_of) at e))
  | inl t ↦ elim (Option-cases (host.stat (host.join dir f.name))) [
    | inl k ↦ none_absurd (rw (t, k, artifacts_of) at e)
    | inr (s, k) ↦ elim (Option-cases (artifacts_of host tag dir shas files)) [
      | inl l ↦ none_absurd (rw (t, k, l, artifacts_of) at e)
      | inr (rest, l) ↦ rw t (
          ap (map (λ (a : ReleaseArtifact). a.file_name))
            (sym (some_inj.0 (rw (t, k, l, artifacts_of) at e)))
          ∙ ap (λ (ns : List Text). f.name ∷ ns) (map-artifacts_of host tag dir shas files rest l))
    ]
  ]
]

release_of-WellListed :
    (host : Host) (tag : Text) (r : LocalRelease) → release_of host tag ≡ some r → WellListed r
unfolding release_of
release_of-WellListed host tag r e =
    let dir = host.join host.downloads_dir tag in
    elim (Option-cases (host.readdir dir)) [
      | inl k ↦ none_absurd (rw (k, release_of) at e)
      | inr (files, k) ↦
          let shas = sha_by_file host dir files [] in
          elim (Option-cases (artifacts_of host tag dir shas files)) [
            | inl l ↦ none_absurd (rw (k, l, release_of) at e)
            | inr (artifacts, l) ↦ subst WellListed (some_inj.0 (rw (k, l, release_of) at e)) (
                artifacts_of-IsServed host tag dir shas files artifacts
                  (sha_by_file-IsDigest host dir files [] tt) l)
          ]
    ]

releases_of-WellListed :
    (host : Host) (tags : List Text) (releases : List LocalRelease)
    → releases_of host tags ≡ some releases
    → All WellListed releases
unfolding releases_of
releases_of-WellListed host [] releases e = subst (All WellListed) (some_inj.0 e) tt
releases_of-WellListed host (tag ∷ tags) releases e = elim (Option-cases (release_of host tag)) [
  | inl k ↦ none_absurd (rw (k, releases_of) at e)
  | inr (r, k) ↦ elim (Option-cases (releases_of host tags)) [
    | inl l ↦ none_absurd (rw (k, l, releases_of) at e)
    | inr (rs, l) ↦
        subst (All WellListed) (some_inj.0 (rw (k, l, releases_of) at e))
          (release_of-WellListed host tag r k, releases_of-WellListed host tags rs l)
  ]
]

-- Every artifact that the page lists has the address of its file under the release's tag, is not
-- itself a checksum file, and shows a checksum exactly if it links to the checksum's file; a shown
-- checksum is 64 hexadecimal digits in lower case.
pub get_local_releases-WellListed : (host : Host) → All WellListed (get_local_releases host)
unfolding get_local_releases
get_local_releases-WellListed host = elim (Option-cases (host.readdir host.downloads_dir)) [
  | inl e ↦ rw (e, get_local_releases) tt
  | inr (entries, e) ↦
      let tags = sort (release_le host.collate) (version_names entries) in
      elim (Option-cases (releases_of host tags)) [
        | inl k ↦ rw (e, k, get_local_releases) tt
        | inr (releases, k) ↦
            rw (e, k, get_local_releases)
              (All-reverse WellListed (sort (tag_le host) releases) (
                All-sort (tag_le host) WellListed releases
                  (releases_of-WellListed host tags releases k)))
      ]
]
