-- ===== src/Docs/Pages/Hidden.antt =====
-- Documents that website/src/app/docs/[...slug]/page.tsx does not show, since their address is an old one.
use mathlib.Core.Option.{some_inj}
use shadownet_agent.Common.Text.{Text}
use mathlib.Core.Bool.{true≢false}
use shadownet_agent.Common.Text.Laws.{same_refl}
use shadownet_agent.Common.{
  ◌≡◌, ◌≢◌, is_empty, drop, refl, sym, ap, subst, ◌⊎◌, inl, inr, false, Option, none, some, List,
  [], ◌∷◌, ◌++◌, Bool-cases, Option-cases, All, ◌∙◌, none_absurd,
}
use shadownet_agent.Docs.Lookup.{IsPart}
use shadownet_agent.Docs.Pages.Reading.{Readable, read_doc_or_index-At}
use shadownet_agent.Docs.Pages.Links.{NotFarsi}
use shadownet_agent.Docs.Pages.{
  Server, Shown, Answer, shown, index_part, try_legacy_redirect, is_index, normalize_slug, resolve,
  normalized_page, resolved_base, doc_page, shown_doc,
}

abbrev page_of : Answer → Option Shown
page_of (shown s) = some s
page_of _ = none

-- The address is no old one, and the page is that of its slug or of the index below it.
abbrev pub IsOwn : Server → List Text → Shown → Type 0
IsOwn srv slug s =
    (is_empty slug ≡ false)
    × (try_legacy_redirect srv slug ≡ none)
    × ((s.doc.slug ≡ slug) ⊎ (s.doc.slug ≡ slug ++ index_part ∷ []))

normalized-IsOwn :
    (srv : Server) (base : Text) (part : Text) (more : List Text) (s : Shown)
    → Readable srv
    → All IsPart (part ∷ more)
    → normalized_page srv base false (part ∷ more) ≡ shown s
    → (s.doc.slug ≡ part ∷ more) ⊎ (s.doc.slug ≡ (part ∷ more) ++ index_part ∷ [])
unfolding normalized_page resolve shown_doc
normalized-IsOwn srv base part more s readable parts h =
    elim (Bool-cases (is_index (part ∷ more))) [
      | inl i ↦ none_absurd (ap page_of (rw (i, normalized_page) at h))
      | inr i ↦ elim (read_doc_or_index-At srv (part ∷ more) readable parts) [
        | inl p ↦ none_absurd (ap page_of (rw (i, normalized_page, p, resolve) at h))
        | inr ((doc, raw), p, q) ↦
            subst
              (λ (x : Shown).
                (x.doc.slug ≡ part ∷ more) ⊎ (x.doc.slug ≡ (part ∷ more) ++ index_part ∷ []))
              (some_inj.0 (ap page_of (rw (i, normalized_page, p, resolve) at h))) q
      ]
    ]

normal_page :
    (srv : Server) (base : Text) (slug : List Text) (s : Shown)
    → Readable srv
    → All IsPart slug
    → normalized_page srv base false (normalize_slug slug) ≡ shown s
    → (is_empty slug ≡ false) × ((s.doc.slug ≡ slug) ⊎ (s.doc.slug ≡ slug ++ index_part ∷ []))
unfolding normalize_slug normalized_page is_index
normal_page srv base [] s readable parts h =
    none_absurd (ap page_of (rw (same_refl index_part, normalized_page) at h))
normal_page srv base (part ∷ more) s readable parts h =
    (refl, normalized-IsOwn srv base part more s readable parts h)

-- A page without a language shows the document of its slug or the index below it, and none if its address is an
-- old one.
pub doc_page-IsOwn :
    (srv : Server) (base_prefix : Option Text) (slug : List Text) (s : Shown)
    → Readable srv
    → NotFarsi base_prefix
    → All IsPart slug
    → doc_page srv base_prefix slug ≡ shown s
    → IsOwn srv slug s
unfolding doc_page
doc_page-IsOwn srv base_prefix slug s readable nf parts h =
    elim (Option-cases (try_legacy_redirect srv slug)) [
      | inr (new, e) ↦ none_absurd (ap page_of (rw (e, doc_page) at h))
      | inl e ↦
          let (ne, own) =
            normal_page srv (resolved_base base_prefix) slug s readable parts
              (rw (e, doc_page, nf) at h) in
          (ne, e, own)
    ]

snoc_not_empty : (more : List Text) → is_empty (more ++ index_part ∷ []) ≡ false
snoc_not_empty [] = refl
snoc_not_empty (part ∷ more) = refl

below_ne :
    (old : Text) (slug : List Text) → is_empty slug ≡ false → slug ++ index_part ∷ [] ≢ old ∷ []
below_ne old [] ne h = true≢false ne
below_ne old (part ∷ more) ne h =
    true≢false (sym (ap (λ (ts : List Text). is_empty (drop 1 ts)) h) ∙ snoc_not_empty more)

-- A document whose address is an old one is shown by no page, but by those in Farsi.
pub doc_page-ne-old :
    (srv : Server) (base_prefix : Option Text) (old new : Text) (slug : List Text) (s : Shown)
    → Readable srv
    → NotFarsi base_prefix
    → All IsPart slug
    → try_legacy_redirect srv (old ∷ []) ≡ some new
    → doc_page srv base_prefix slug ≡ shown s
    → s.doc.slug ≢ old ∷ []
doc_page-ne-old srv base_prefix old new slug s readable nf parts h page e =
    let (ne, none_old, own) = doc_page-IsOwn srv base_prefix slug s readable nf parts page in
    elim own [
      | inl k ↦ none_absurd (sym none_old ∙ (ap (try_legacy_redirect srv) (sym k ∙ e) ∙ h))
      | inr k ↦ below_ne old slug ne (sym k ∙ e)
    ]
