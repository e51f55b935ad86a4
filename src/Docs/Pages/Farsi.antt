-- ===== src/Docs/Pages/Farsi.antt =====
-- The Farsi pages of website/src/app/[lang]/docs/[...slug]/page.tsx, which fall back to the English document.
use mathlib.Core.Bool.{true≢false}
use shadownet_agent.Common.Text.{Text, txt, same, trim, trim_start, trim_end, is_space}
use shadownet_agent.Common.Text.Laws.{same_refl}
use shadownet_agent.Common.{
  ◌≡◌, refl, sym, ap, subst, ◌⊎◌, inl, inr, Bool, true, false, some, List, [], ◌∷◌, ◌++◌, is_empty,
  arith, span, ◌∙◌,
}
use shadownet_agent.Docs.{DocEntry}
use shadownet_agent.Docs.Lookup.{IsPart}
use shadownet_agent.Docs.Pages.Reading.{
  Readable, Listed, Listed-IsPart, FoundAt, read_direct, read_doc_or_index-At,
}
use shadownet_agent.Docs.Pages.Links.{Shows, IsPageOf, resolved_page}
use shadownet_agent.Docs.Pages.{
  Server, Doc, Shown, index_part, try_legacy_redirect, is_index, is_farsi, is_twice_farsi, resolve,
  resolved_base, doc_page, mapped_slug, lang_doc_page,
}

farsi_base : resolved_base (some (txt "/" ++ txt "fa")) ≡ txt "/fa"
unfolding resolved_base txt trim trim_start trim_end is_space span
farsi_base = refl

farsi_prefix : same (resolved_base (some (txt "/" ++ txt "fa"))) (txt "/fa") ≡ true
farsi_prefix = ap (λ (t : Text). same t (txt "/fa")) farsi_base ∙ same_refl (txt "/fa")

-- The English document, with the notice that it is not translated.
abbrev pub IsEnglish : List Text → Shown → Type 0
IsEnglish slug s = (s.used_english_fallback ≡ true) × (s.doc.slug ≡ slug)

fa-IsPart : IsPart (txt "fa")
unfolding txt
fa-IsPart = (refl, omega arith)

abbrev farsi_slug : List Text → List Text
farsi_slug slug = txt "fa" ∷ slug

farsi_page :
    (srv : Server) (slug : List Text) (d : Doc) (used : Bool)
    → is_empty slug ≡ false
    → is_farsi slug ≡ false
    → resolve srv true (farsi_slug slug) ≡ some (some d, used)
    → Shows
        (doc_page srv (some (txt "/" ++ txt "fa")) (farsi_slug slug))
        (λ s. (s.doc.slug ≡ d.0.slug) × (s.used_english_fallback ≡ used))
unfolding is_twice_farsi try_legacy_redirect is_index
farsi_page srv [] d used ne nf found = absurd (true≢false ne)
farsi_page srv (part ∷ more) d used ne nf found =
    resolved_page srv (some (txt "/" ++ txt "fa")) (txt "fa") (part ∷ more) d used refl
      (rw nf (ground arith)) refl
      (subst (λ (b : Bool). resolve srv b (farsi_slug (part ∷ more)) ≡ some (some d, used))
        (sym farsi_prefix) found)

-- What is found under the slug of a Farsi page is shown there.
pub farsi_found :
    (srv : Server) (slug : List Text)
    → is_empty slug ≡ false
    → is_farsi slug ≡ false
    → FoundAt srv (txt "fa" ∷ slug)
    → Shows
        (doc_page srv (some (txt "/" ++ txt "fa")) (txt "fa" ∷ slug))
        (IsPageOf (txt "fa" ∷ slug))
unfolding resolve
farsi_found srv slug ne nf (d, p, q) =
    let (s, k, (t, used)) = farsi_page srv slug d false ne nf (rw (p, resolve) refl) in
    (
      s,
      k,
      (
        used,
        subst
            (λ (shown_slug : List Text).
              (shown_slug ≡ farsi_slug slug) ⊎ (shown_slug ≡ farsi_slug slug ++ index_part ∷ []))
            (sym t) q,
      ),
    )

pub mapped_farsi :
    (slug : List Text) → is_farsi slug ≡ false → mapped_slug (txt "fa") slug ≡ txt "fa" ∷ slug
unfolding mapped_slug
mapped_farsi slug nf = rw (same_refl (txt "fa"), nf) refl

translated_page :
    (srv : Server) (e : DocEntry)
    → Readable srv
    → Listed srv e
    → is_farsi e.slug ≡ false
    → is_empty e.slug ≡ false
    → Shows
        (doc_page srv (some (txt "/" ++ txt "fa")) (farsi_slug e.slug))
        (λ s. IsPageOf (farsi_slug e.slug) s ⊎ IsEnglish e.slug s)
unfolding resolve is_twice_farsi is_farsi
translated_page srv e readable l nf ne =
    let parts = Listed-IsPart srv e l in
    elim (read_doc_or_index-At srv (farsi_slug e.slug) readable (fa-IsPart, parts)) [
      | inr found ↦ let (s, k, p) = farsi_found srv e.slug ne nf found in (s, k, inl p)
      | inl p ↦
          let (d, r, q) = read_direct srv e readable l in
          let (s, k, (t, used)) =
            farsi_page srv e.slug d true ne nf (rw (p, resolve, same_refl (txt "fa"), r) refl) in
          (s, k, inr (used, t ∙ q))
    ]

-- Each English document has a Farsi page: it shows the Farsi document with the same slug, or the index
-- below it, or else the English document with the notice. The files can be read.
pub lang_doc_page-Shows :
    (srv : Server) (e : DocEntry)
    → Readable srv
    → Listed srv e
    → is_farsi e.slug ≡ false
    → is_empty e.slug ≡ false
    → Shows
        (lang_doc_page srv (txt "fa") e.slug)
        (λ s. IsPageOf (txt "fa" ∷ e.slug) s ⊎ IsEnglish e.slug s)
unfolding lang_doc_page mapped_slug
lang_doc_page-Shows srv e readable l nf ne =
    subst
      (λ (slug : List Text).
        Shows (doc_page srv (some (txt "/" ++ txt "fa")) slug)
          (λ s. IsPageOf (txt "fa" ∷ e.slug) s ⊎ IsEnglish e.slug s))
      (sym (mapped_farsi e.slug nf)) (translated_page srv e readable l nf ne)
