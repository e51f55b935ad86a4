-- ===== src/Docs/Pages/Localized.antt =====
-- The addresses that website/src/app/[lang]/docs/[...slug]/page.tsx is built for.
use mathlib.Core.Bool.{true≢false}
use shadownet_agent.Common.Text.{Text, txt, same}
use shadownet_agent.Common.Text.Laws.{same_iff}
use shadownet_agent.Common.{
  ◌≡◌, ◌⊎◌, refl, sym, ap, subst, ◌∙◌, inl, inr, Bool, true, false, ◌||◌, ◌&&◌, some, List, [], ◌∷◌,
  ◌++◌, map, drop, is_empty, if◌then◌else◌, Bool-cases, All, All-append, map-All, append_assoc,
  arith,
}
use shadownet_agent.Docs.Content.{lang_name}
use shadownet_agent.Docs.Pages.Farsi.{farsi_found, mapped_farsi}
use shadownet_agent.Docs.Pages.Links.{Shows, IsPageOf, NotFarsi, Leads, IsTidy, params_of-Leads}
use shadownet_agent.Docs.Pages.Reading.{Readable, listed, Listed, FoundAt, read_direct, found_below}
use shadownet_agent.Docs.Pages.{
  Server, redirect, index_part, try_legacy_redirect, ends_in_index, is_index, is_farsi,
  all_but_last, params_of, resolved_base, doc_page, mapped_slug, lang_doc_page,
}
use shadownet_agent.Docs.{DocEntry, get_docs_index}
use shadownet_agent.Links.{UiLang, en, fa}

-- The addresses of one document, less the part `fa` of a Farsi one.
unfoldable pub lang_params_of : DocEntry → List (UiLang × List Text)
lang_params_of e =
    if is_index e.slug
    then []
    else if is_farsi e.slug
    then map (λ (slug : List Text). (fa, slug)) (params_of (record e { slug = drop 1 e.slug }))
    else map (λ (slug : List Text). (en, slug)) (params_of e)

unfoldable pub lang_entry_params : List DocEntry → List (UiLang × List Text)
lang_entry_params [] = []
lang_entry_params (e ∷ more) = lang_params_of e ++ lang_entry_params more

-- generateStaticParams of the pages under a language.
unfoldable pub lang_static_params : Server → List (UiLang × List Text)
lang_static_params srv = lang_entry_params (get_docs_index srv.unicode srv.collate srv.docs)

-- Under a language, an old address leads on; any other shows the document of the slug, or the index below it.
abbrev pub LeadsIn : Server → UiLang × List Text → Type 0
LeadsIn srv p =
    let slug = mapped_slug (lang_name p.0) p.1 in
    ((new : Text) × (try_legacy_redirect srv slug ≡ some new)
      × (lang_doc_page srv (lang_name p.0) p.1
          ≡ redirect (resolved_base (some (txt "/" ++ lang_name p.0)) ++ new)))
    ⊎ Shows (lang_doc_page srv (lang_name p.0) p.1) (IsPageOf slug)

-- A Farsi slug names something else than Farsi below.
abbrev pub IsTidyIn : DocEntry → Type 0
IsTidyIn e =
    IsTidy e × ((is_farsi e.slug && (is_empty (drop 1 e.slug) || is_farsi (drop 1 e.slug))) ≡ false)

farsi_LeadsIn :
    (srv : Server) (slug : List Text)
    → is_empty slug ≡ false
    → is_farsi slug ≡ false
    → FoundAt srv (txt "fa" ∷ slug)
    → LeadsIn srv (fa, slug)
unfolding lang_doc_page
farsi_LeadsIn srv slug ne nf found = inr (
    subst (λ s. Shows (doc_page srv (some (txt "/" ++ txt "fa")) s) (IsPageOf s))
      (sym (mapped_farsi slug nf)) (farsi_found srv slug ne nf found))

farsi_params :
    (srv : Server) (e : DocEntry) (slug : List Text)
    → Readable srv
    → Listed srv e
    → e.slug ≡ txt "fa" ∷ slug
    → ends_in_index (all_but_last (txt "fa" ∷ slug)) ≡ false
    → is_empty slug ≡ false
    → is_farsi slug ≡ false
    → All (λ s. LeadsIn srv (fa, s)) (params_of (record e { slug = slug }))
unfolding params_of is_index ends_in_index all_but_last is_farsi
farsi_params srv e [] readable l k one ne nf = absurd (true≢false ne)
farsi_params srv e (part ∷ []) readable l k one ne nf = elim (Bool-cases (same part index_part)) [
  | inl i ↦ rw (i, params_of) tt
  | inr i ↦
      rw (i, params_of)
        (
          let (d, p, q) = read_direct srv e readable l in
              farsi_LeadsIn srv (part ∷ []) refl nf (subst (FoundAt srv) k (d, p, inl q)),
          tt,
        )
]
farsi_params srv e (part ∷ next ∷ more) readable l k one ne nf =
    let (d, p, q) = read_direct srv e readable l in
    let direct =
      farsi_LeadsIn srv (part ∷ next ∷ more) refl nf (subst (FoundAt srv) k (d, p, inl q)) in
    elim (Bool-cases (ends_in_index (next ∷ more))) [
      | inr i ↦ rw (i, params_of) (direct, tt)
      | inl i ↦
          rw (i, params_of)
            (
              direct,
              (
                farsi_LeadsIn srv (part ∷ all_but_last (next ∷ more)) refl nf
                    (found_below srv e (txt "fa") part (next ∷ more) readable l k one i),
                tt,
              ),
            )
    ]

farsi_slug_of : (slug : List Text) → is_farsi slug ≡ true → slug ≡ txt "fa" ∷ drop 1 slug
unfolding is_farsi
farsi_slug_of [] h = absurd (true≢false (sym h))
farsi_slug_of (part ∷ more) h = ap (λ (t : Text). t ∷ more) ((same_iff part (txt "fa")).0 h)

english_LeadsIn :
    (srv : Server) (slugs : List (List Text))
    → All (Leads srv (some (txt "/" ++ txt "en"))) slugs
    → All (λ s. LeadsIn srv (en, s)) slugs
unfolding lang_doc_page mapped_slug txt same
english_LeadsIn srv [] h = tt
english_LeadsIn srv (slug ∷ slugs) (p, h) = (p, english_LeadsIn srv slugs h)

en-NotFarsi : NotFarsi (some (txt "/" ++ txt "en"))
unfolding resolved_base txt same shadownet_agent.Common.Text.trim
en-NotFarsi = refl

lang_params_of-LeadsIn :
    (srv : Server) (e : DocEntry)
    → Readable srv
    → Listed srv e
    → IsTidyIn e
    → All (LeadsIn srv) (lang_params_of e)
unfolding lang_params_of
lang_params_of-LeadsIn srv e readable l (tidy, t) = elim (Bool-cases (is_index e.slug)) [
  | inl i ↦ rw (i, lang_params_of) tt
  | inr i ↦ elim (Bool-cases (is_farsi e.slug)) [
    | inl f ↦
        rw (i, lang_params_of, f)
          (let k = farsi_slug_of e.slug f in
            map-All (LeadsIn srv) (λ (slug : List Text). (fa, slug))
              (params_of (record e { slug = drop 1 e.slug }))
              (farsi_params srv e (drop 1 e.slug) readable l k
                (subst (λ s. ends_in_index (all_but_last s) ≡ false) k tidy.1) (ground arith)
                (ground arith)))
    | inr f ↦
        rw (i, lang_params_of, f)
          (map-All (LeadsIn srv) (λ (slug : List Text). (en, slug)) (params_of e)
            (english_LeadsIn srv (params_of e)
              (params_of-Leads srv (some (txt "/" ++ txt "en")) e readable en-NotFarsi l tidy)))
  ]
]

lang_entry_params-LeadsIn :
    (srv : Server) (before after : List DocEntry)
    → Readable srv
    → listed srv ≡ before ++ after
    → All IsTidyIn after
    → All (LeadsIn srv) (lang_entry_params after)
unfolding lang_entry_params
lang_entry_params-LeadsIn srv before [] readable k h = tt
lang_entry_params-LeadsIn srv before (e ∷ after) readable k (t, h) =
    All-append (LeadsIn srv) (lang_params_of e) (lang_entry_params after)
      (lang_params_of-LeadsIn srv e readable (before, after, k) t)
      (lang_entry_params-LeadsIn srv (before ++ e ∷ []) after readable
        (k ∙ sym (append_assoc before (e ∷ []) after)) h)

-- Every address under a language that the site is built for leads to a page: an old address is redirected, and any
-- other shows the document of its slug, or the index below it, and no English one in place of a Farsi one. The
-- documents have slugs, none an index below an index and none under `fa` twice or with `fa` alone, and can be read.
pub lang_static_params-LeadsIn :
    (srv : Server)
    → Readable srv
    → All IsTidyIn (listed srv)
    → All (LeadsIn srv) (lang_static_params srv)
unfolding lang_static_params
lang_static_params-LeadsIn srv readable h =
    lang_entry_params-LeadsIn srv [] (listed srv) readable refl h
