-- ===== src/Releases/Footer.antt =====
-- The release that the foot of each page names: getLatestRelease of website/src/components/SiteFooter.tsx.
-- Its parseSemver and compareRelease are those of website/src/lib/releases/local.ts.
use mathlib.Core.Option.{some_inj}
use shadownet_agent.Common.{
  ◌≡◌, refl, sym, ap, subst, ◌∙◌, inl, inr, Bool, true, Option, none, some, List, [], ◌∷◌, ◌++◌,
  reverse, All, All-map, Bool-cases, Option-cases, none_absurd, is_empty, if◌then◌else◌,
}
use mathlib.Core.Bool.{true≢false}
use mathlib.Core.List.{reverse-cons, reverse-reverse, map-append}
use shadownet_agent.Common.Sort.{insert, sort, IsSorted, sort-IsSorted}
use shadownet_agent.Common.Text.{Text, txt, trim}
use shadownet_agent.Releases.Listing.Order.{tags_of, tags-releases_of}
use shadownet_agent.Releases.Listing.{
  Entry, Host, LocalRelease, releases_of, tag_le, truthy, get_local_releases, version_names,
}
use shadownet_agent.Releases.Names.Order.{IsSemver, release_le_trans, release_le_total}
use shadownet_agent.Releases.Names.{release_le}

pub record ReleaseInfo : Type 0 where
  pub version : Text
  pub build_ref : Option Text

-- `versions.at(-1)`
unfoldable pub last : List Text → Option Text
last [] = none
last (t ∷ []) = some t
last (t ∷ u ∷ ts) = last (u ∷ ts)

unfoldable pub release_info : Host → Text → Option ReleaseInfo
release_info host version =
    elim (host.read_file (host.join (host.join host.downloads_dir version) (txt "VERSION.txt"))) [
      | none ↦ none
      | some raw ↦ some (record { version = version; build_ref = truthy (trim raw) })
    ]

-- getLatestRelease
unfoldable pub get_latest_release : Host → Option ReleaseInfo
get_latest_release host = elim (host.readdir host.downloads_dir) [
  | none ↦ none
  | some entries ↦ elim (last (sort (release_le host.collate) (version_names entries))) [
    | none ↦ none
    | some version ↦ if is_empty version then none else release_info host version
  ]
]

module _ {A : Type 0} (le : A → A → Bool) where
  insert_least : (x : A) (xs : List A) → All (λ y. le x y ≡ true) xs → insert le x xs ≡ x ∷ xs
  unfolding insert
  insert_least x [] p = refl
  insert_least x (y ∷ xs) (p, h) = rw p refl

  sort_sorted : (xs : List A) → IsSorted le xs → sort le xs ≡ xs
  unfolding sort
  sort_sorted [] h = refl
  sort_sorted (x ∷ xs) (p, h) = ap (insert le x) (sort_sorted xs h) ∙ insert_least x xs p

IsSorted-tags :
    (host : Host) (releases : List LocalRelease)
    → IsSorted (release_le host.collate) (tags_of releases)
    → IsSorted (tag_le host) releases
IsSorted-tags host [] h = tt
IsSorted-tags host (r ∷ rs) (p, h) = (
  All-map (λ (t : Text). release_le host.collate r.tag t ≡ true) (λ (x : LocalRelease). x.tag) rs p,
  IsSorted-tags host rs h,
)

last-snoc : (ts : List Text) (t : Text) → last (ts ++ t ∷ []) ≡ some t
unfolding last
last-snoc [] t = refl
last-snoc (u ∷ []) t = refl
last-snoc (u ∷ v ∷ ts) t = last-snoc (v ∷ ts) t

last_of_reverse :
    (releases rs : List LocalRelease) (r : LocalRelease)
    → reverse releases ≡ r ∷ rs
    → last (tags_of releases) ≡ some r.tag
last_of_reverse releases rs r h =
    ap (λ (xs : List LocalRelease). last (tags_of xs))
      (sym (reverse-reverse releases) ∙ (ap reverse h ∙ reverse-cons r rs))
    ∙ (ap last (map-append (λ (x : LocalRelease). x.tag) (reverse rs) (r ∷ []))
        ∙ last-snoc (tags_of (reverse rs)) r.tag)

-- What the foot of the page names is the directory that sorts last.
named_version :
    (host : Host) (entries : List Entry) (info : ReleaseInfo) (version : Text)
    → host.readdir host.downloads_dir ≡ some entries
    → last (sort (release_le host.collate) (version_names entries)) ≡ some version
    → get_latest_release host ≡ some info
    → info.version ≡ version
unfolding get_latest_release release_info
named_version host entries info version e l h = elim (Bool-cases (is_empty version)) [
  | inl k ↦ none_absurd (rw (e, get_latest_release, l, k) at h)
  | inr k ↦
      elim (Option-cases
        (host.read_file (host.join (host.join host.downloads_dir version) (txt "VERSION.txt")))) [
          | inl f ↦ none_absurd (rw (e, get_latest_release, l, k, f, release_info) at h)
          | inr (raw, f) ↦
              ap (λ (i : ReleaseInfo). i.version)
                (sym (some_inj.0 (rw (e, get_latest_release, l, k, f, release_info) at h)))
        ]
]

-- If every version directory is named vMAJOR.MINOR.PATCH, the release that the foot of the page names is the
-- first that getLocalReleases lists, if both give one.
pub get_latest_release_lem :
    (host : Host) (entries : List Entry) (r : LocalRelease) (rs : List LocalRelease)
    (info : ReleaseInfo)
    → host.readdir host.downloads_dir ≡ some entries
    → All IsSemver (version_names entries)
    → get_local_releases host ≡ r ∷ rs
    → get_latest_release host ≡ some info
    → info.version ≡ r.tag
unfolding get_local_releases
get_latest_release_lem host entries r rs info e names h k =
    let tags = sort (release_le host.collate) (version_names entries) in
    elim (Option-cases (releases_of host tags)) [
      | inl l ↦ absurd (true≢false (ap is_empty (rw (e, l, get_local_releases) at h)))
      | inr (releases, l) ↦
          let t = tags-releases_of host tags releases l in
          let sorted = sort_sorted (tag_le host) releases (
            IsSorted-tags host releases (
              subst (IsSorted (release_le host.collate)) (sym t) (
                sort-IsSorted (release_le host.collate) IsSemver (release_le_trans host.collate)
                  (release_le_total host.collate) (version_names entries) names))) in
          named_version host entries info r.tag e
            (sym (ap last t)
              ∙ last_of_reverse releases rs r
                  (sym (ap reverse sorted) ∙ (rw (e, l, get_local_releases) at h)))
            k
    ]
