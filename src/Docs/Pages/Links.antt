-- ===== src/Docs/Pages/Links.antt =====
-- Every address that website/src/app/docs/[...slug]/page.tsx is built for, and every Farsi address of an
-- English document, shows a document.
use mathlib.Core.Bool.{true≢false}
use shadownet_agent.Common.Text.{Text, txt, same}
use shadownet_agent.Common.{
  ◌≡◌, refl, sym, subst, ◌⊎◌, inl, inr, Bool, true, false, ◌&&◌, Option, none, some, List, [], ◌∷◌,
  ◌++◌, is_empty, Bool-cases, Option-cases, All, All-append, map, append_assoc, ◌∙◌,
}
use shadownet_agent.Docs.{DocEntry}
use shadownet_agent.Docs.Pages.Reading.{found_below, Readable, listed, Listed, FoundAt, read_direct}
use shadownet_agent.Docs.Pages.{
  Server, Doc, Shown, Answer, redirect, shown, index_part, legacy_redirects, legacy_target,
  try_legacy_redirect, ends_in_index, is_index, normalize_slug, is_twice_farsi, all_but_last,
  params_of, entry_params, generate_static_params, resolve, shown_doc, normalized_page,
  resolved_base, doc_page,
}

-- The answer is a page of which something holds.
abbrev pub Shows : Answer → (Shown → Type 0) → Type 0
Shows answer P = (s : Shown) × (answer ≡ shown s) × P s

-- A page without notice that shows the document of a slug, or the index below it.
abbrev pub IsPageOf : List Text → Shown → Type 0
IsPageOf slug s =
    (s.used_english_fallback ≡ false)
    × ((s.doc.slug ≡ slug) ⊎ (s.doc.slug ≡ slug ++ index_part ∷ []))

-- The prefix of no Farsi page.
abbrev pub NotFarsi : Option Text → Type 0
NotFarsi base_prefix = same (resolved_base base_prefix) (txt "/fa") ≡ false

pub resolved_page :
    (srv : Server) (base_prefix : Option Text) (part : Text) (more : List Text) (d : Doc)
    (used : Bool)
    → try_legacy_redirect srv (part ∷ more) ≡ none
    → (same (resolved_base base_prefix) (txt "/fa") && is_twice_farsi (part ∷ more)) ≡ false
    → is_index (part ∷ more) ≡ false
    → resolve srv (same (resolved_base base_prefix) (txt "/fa")) (part ∷ more) ≡ some (some d, used)
    → Shows
        (doc_page srv base_prefix (part ∷ more))
        (λ s. (s.doc.slug ≡ d.0.slug) × (s.used_english_fallback ≡ used))
unfolding doc_page normalize_slug normalized_page shown_doc
resolved_page srv base_prefix part more (doc, raw) used legacy twice index found = (
  shown_doc srv (resolved_base base_prefix) (same (resolved_base base_prefix) (txt "/fa"))
      (part ∷ more) (doc, raw) used,
  rw (legacy, doc_page, twice, normalized_page, index, found) refl,
  (refl, refl),
)

found_page :
    (srv : Server) (base_prefix : Option Text) (part : Text) (more : List Text)
    → NotFarsi base_prefix
    → try_legacy_redirect srv (part ∷ more) ≡ none
    → is_index (part ∷ more) ≡ false
    → FoundAt srv (part ∷ more)
    → Shows (doc_page srv base_prefix (part ∷ more)) (IsPageOf (part ∷ more))
unfolding resolve
found_page srv base_prefix part more nf legacy index (d, p, q) =
    let (s, e, (same_slug, used)) =
      resolved_page srv base_prefix part more d false legacy (rw nf refl) index
        (rw (p, resolve) refl) in
    (
      s,
      e,
      (
        used,
        subst (λ (slug : List Text). (slug ≡ part ∷ more) ⊎ (slug ≡ part ∷ more ++ index_part ∷ []))
            (sym same_slug) q,
      ),
    )

-- An old address leads on; any other shows the document of the slug, or the index below it.
abbrev pub Leads : Server → Option Text → List Text → Type 0
Leads srv base_prefix slug =
    ((new : Text) × (try_legacy_redirect srv slug ≡ some new)
      × (doc_page srv base_prefix slug ≡ redirect (resolved_base base_prefix ++ new)))
    ⊎ Shows (doc_page srv base_prefix slug) (IsPageOf slug)

-- A slug is not empty, and no index lies below another.
abbrev pub IsTidy : DocEntry → Type 0
IsTidy e = (is_empty e.slug ≡ false) × (ends_in_index (all_but_last e.slug) ≡ false)

legacy_or :
    (srv : Server) (base_prefix : Option Text) (slug : List Text)
    → (try_legacy_redirect srv slug ≡ none → Shows (doc_page srv base_prefix slug) (IsPageOf slug))
    → Leads srv base_prefix slug
unfolding doc_page
legacy_or srv base_prefix slug page = elim (Option-cases (try_legacy_redirect srv slug)) [
  | inl e ↦ inr (page e)
  | inr (new, e) ↦ inl (new, e, rw (e, doc_page) refl)
]

direct-Leads :
    (srv : Server) (base_prefix : Option Text) (e : DocEntry)
    → Readable srv
    → NotFarsi base_prefix
    → Listed srv e
    → is_empty e.slug ≡ false
    → is_index e.slug ≡ false
    → Leads srv base_prefix e.slug
direct-Leads srv base_prefix e readable nf l ne index =
    let (d, p, q) = read_direct srv e readable l in
    legacy_or srv base_prefix e.slug (λ legacy. at_slug e.slug ne legacy index (d, p, inl q))
  where
    at_slug :
        (slug : List Text)
        → is_empty slug ≡ false
        → try_legacy_redirect srv slug ≡ none
        → is_index slug ≡ false
        → FoundAt srv slug
        → Shows (doc_page srv base_prefix slug) (IsPageOf slug)
    at_slug [] ne legacy index found = absurd (true≢false ne)
    at_slug (part ∷ more) ne legacy index found =
        found_page srv base_prefix part more nf legacy index found

not_index : (slug : List Text) → ends_in_index slug ≡ false → is_index slug ≡ false
unfolding is_index ends_in_index
not_index [] h = refl
not_index (part ∷ []) h = h
not_index (part ∷ next ∷ more) h = refl

below-Leads :
    (srv : Server) (base_prefix : Option Text) (e : DocEntry) (slug : List Text)
    → Readable srv
    → NotFarsi base_prefix
    → Listed srv e
    → e.slug ≡ slug
    → ends_in_index (all_but_last slug) ≡ false
    → is_index slug ≡ false
    → ends_in_index slug ≡ true
    → Leads srv base_prefix (all_but_last slug)
unfolding all_but_last is_index ends_in_index
below-Leads srv base_prefix e [] readable nf l k one index last = absurd (true≢false (sym last))
below-Leads srv base_prefix e (part ∷ []) readable nf l k one index last =
    absurd (true≢false (sym last ∙ index))
below-Leads srv base_prefix e (part ∷ next ∷ more) readable nf l k one index last =
    let kept = part ∷ all_but_last (next ∷ more) in
    legacy_or srv base_prefix kept (λ legacy.
      found_page srv base_prefix part (all_but_last (next ∷ more)) nf legacy (not_index kept one)
        (found_below srv e part next more readable l k one last))

pub params_of-Leads :
    (srv : Server) (base_prefix : Option Text) (e : DocEntry)
    → Readable srv
    → NotFarsi base_prefix
    → Listed srv e
    → IsTidy e
    → All (Leads srv base_prefix) (params_of e)
unfolding params_of
params_of-Leads srv base_prefix e readable nf l tidy = elim (Bool-cases (is_index e.slug)) [
  | inl i ↦ rw (i, params_of) tt
  | inr i ↦ elim (Bool-cases (ends_in_index e.slug)) [
    | inl j ↦
        rw (i, params_of, j)
          (
            direct-Leads srv base_prefix e readable nf l tidy.0 i,
            (below-Leads srv base_prefix e e.slug readable nf l refl tidy.1 i j, tt),
          )
    | inr j ↦ rw (i, params_of, j) (direct-Leads srv base_prefix e readable nf l tidy.0 i, tt)
  ]
]

entry_params-Leads :
    (srv : Server) (base_prefix : Option Text) (before after : List DocEntry)
    → Readable srv
    → NotFarsi base_prefix
    → listed srv ≡ before ++ after
    → All IsTidy after
    → All (Leads srv base_prefix) (entry_params after)
unfolding entry_params
entry_params-Leads srv base_prefix before [] readable nf k h = tt
entry_params-Leads srv base_prefix before (e ∷ after) readable nf k (t, h) =
    All-append (Leads srv base_prefix) (params_of e) (entry_params after)
      (params_of-Leads srv base_prefix e readable nf (before, after, k) t)
      (entry_params-Leads srv base_prefix (before ++ e ∷ []) after readable nf
        (k ∙ sym (append_assoc before (e ∷ []) after)) h)

legacy-Leads :
    (srv : Server) (base_prefix : Option Text)
    → All (Leads srv base_prefix) (map (λ (r : Text × Text). r.0 ∷ []) legacy_redirects)
unfolding doc_page try_legacy_redirect legacy_target txt same
legacy-Leads srv base_prefix =
    let old : (name new : Text)
        → try_legacy_redirect srv (name ∷ []) ≡ some new
        → Leads srv base_prefix (name ∷ []) =
      λ name new e. inl (new, e, rw (e, doc_page) refl) in
    (
      old _ _ refl,
      (
        old _ _ refl,
        (
          old _ _ refl,
          (old _ _ refl, (old _ _ refl, (old _ _ refl, (old _ _ refl, (old _ _ refl, tt))))),
        ),
      ),
    )

-- Every address without a language that the site is built for leads to a page: an old address is redirected,
-- and any other shows the document of its slug, or the index below it. The documents have slugs, none an index
-- below an index, and can be read.
pub generate_static_params-Leads :
    (srv : Server) (base_prefix : Option Text)
    → Readable srv
    → NotFarsi base_prefix
    → All IsTidy (listed srv)
    → All (Leads srv base_prefix) (generate_static_params srv)
unfolding generate_static_params
generate_static_params-Leads srv base_prefix readable nf h =
    All-append (Leads srv base_prefix) (entry_params (listed srv))
      (map (λ (r : Text × Text). r.0 ∷ []) legacy_redirects)
      (entry_params-Leads srv base_prefix [] (listed srv) readable nf refl h)
      (legacy-Leads srv base_prefix)
