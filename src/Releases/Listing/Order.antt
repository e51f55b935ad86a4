-- ===== src/Releases/Listing/Order.antt =====
-- Which releases getLocalReleases of website/src/lib/releases/local.ts returns, and in what order.
use mathlib.Core.List.Perm
use mathlib.Core.List.{Perm}
use mathlib.Core.Option.{some_inj}
use shadownet_agent.Common.{
  ◌≡◌, sym, ap, ◌∙◌, inl, inr, some, List, [], ◌∷◌, map, Option-cases, none_absurd,
}
use shadownet_agent.Common.Text.{Text}
use shadownet_agent.Releases.Listing.{
  Host, artifacts_of, sha_by_file, LocalRelease, release_of, releases_of,
}

abbrev pub tags_of : List LocalRelease → List Text
tags_of = map (λ (r : LocalRelease). r.tag)

tag-release_of :
    (host : Host) (tag : Text) (r : LocalRelease) → release_of host tag ≡ some r → r.tag ≡ tag
unfolding release_of
tag-release_of host tag r e =
    let dir = host.join host.downloads_dir tag in
    elim (Option-cases (host.readdir dir)) [
      | inl k ↦ none_absurd (rw (k, release_of) at e)
      | inr (files, k) ↦
          let shas = sha_by_file host dir files [] in
          elim (Option-cases (artifacts_of host tag dir shas files)) [
            | inl l ↦ none_absurd (rw (k, l, release_of) at e)
            | inr (artifacts, l) ↦
                sym (ap (λ (x : LocalRelease). x.tag) (some_inj.0 (rw (k, l, release_of) at e)))
          ]
    ]

pub tags-releases_of :
    (host : Host) (tags : List Text) (releases : List LocalRelease)
    → releases_of host tags ≡ some releases
    → tags_of releases ≡ tags
unfolding releases_of
tags-releases_of host [] releases e = ap tags_of (sym (some_inj.0 e))
tags-releases_of host (tag ∷ tags) releases e = elim (Option-cases (release_of host tag)) [
  | inl k ↦ none_absurd (rw (k, releases_of) at e)
  | inr (r, k) ↦ elim (Option-cases (releases_of host tags)) [
    | inl l ↦ none_absurd (rw (k, l, releases_of) at e)
    | inr (rs, l) ↦
        ap tags_of (sym (some_inj.0 (rw (k, l, releases_of) at e)))
        ∙ (ap (λ (t : Text). t ∷ tags_of rs) (tag-release_of host tag r k)
            ∙ ap (λ (ts : List Text). tag ∷ ts) (tags-releases_of host tags rs l))
  ]
]
