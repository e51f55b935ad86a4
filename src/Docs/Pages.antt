-- ===== src/Docs/Pages.antt =====
-- The pages of the documentation: which document website/src/app/docs/[...slug]/page.tsx shows for
-- an address, and website/src/app/[lang]/docs/[...slug]/page.tsx, which passes its slug on.
pub mod Reading
pub mod Links
pub mod Farsi
pub mod Hidden
pub mod Localized
use shadownet_agent.Common.Int.{ℤ}
use shadownet_agent.Common.Text.{Text, txt, same, trim, join, lines_of, Unicode}
use shadownet_agent.Common.{
  ℕ, suc, Bool, true, false, not, ◌&&◌, Option, none, some, List, [], ◌∷◌, ◌++◌, map, filter,
  is_empty, drop, length, if◌then◌else◌,
}
use shadownet_agent.Docs.{Entries, DocEntry, read_doc_markdown_by_slug, get_docs_index}
use shadownet_agent.Markdown.Href.{Page}
use shadownet_agent.Markdown.Blocks.{Block, TocItem, render_markdown}

-- The texts of the repository and what the engine gives: collation, `readFile`, and what a plain object
-- inherits under a name, as it prints.
pub record Server : Type 0 where
  pub unicode : Unicode
  pub collate : Text → Text → ℤ
  pub docs : Entries
  pub read_file : List Text → Option Text
  pub inherited : Text → Option Text

abbrev pub index_part : Text
index_part = txt "index"

abbrev pub legacy_redirects : List (Text × Text)
legacy_redirects =
    (txt "install-linux", txt "/docs/user/install-linux")
    ∷ (txt "install-android", txt "/docs/user/install-android")
    ∷ (txt "install-ios", txt "/docs/install")
    ∷ (txt "install-raspberrypi", txt "/docs/user/install-linux")
    ∷ (txt "mobile", txt "/docs/android/architecture")
    ∷ (txt "signal", txt "/docs/signal")
    ∷ (txt "security", txt "/docs/user/safety")
    ∷ (txt "verification", txt "/docs/outside/verification")
    ∷ []

-- `legacyRedirects[name]`
unfoldable pub legacy_target : Server → List (Text × Text) → Text → Option Text
legacy_target srv [] name = srv.inherited name
legacy_target srv ((old, new) ∷ more) name =
    if same old name then some new else legacy_target srv more name

-- tryLegacyRedirect
unfoldable pub try_legacy_redirect : Server → List Text → Option Text
try_legacy_redirect srv (name ∷ []) = legacy_target srv legacy_redirects name
try_legacy_redirect srv _ = none

-- `slug.at(-1) === "index"`
unfoldable pub ends_in_index : List Text → Bool
ends_in_index [] = false
ends_in_index (part ∷ []) = same part index_part
ends_in_index (part ∷ next ∷ more) = ends_in_index (next ∷ more)

-- `slug.length === 1 && slug[0] === "index"`
unfoldable pub is_index : List Text → Bool
is_index (part ∷ []) = same part index_part
is_index _ = false

-- normalizeSlug; its other tests return the slug as it is.
unfoldable pub normalize_slug : List Text → List Text
normalize_slug [] = index_part ∷ []
normalize_slug (part ∷ more) = part ∷ more

-- tryIndexFallback
unfoldable pub try_index_fallback : List Text → Option (List Text)
try_index_fallback [] = none
try_index_fallback (part ∷ more) =
    if ends_in_index (part ∷ more) then none else some ((part ∷ more) ++ index_part ∷ [])

-- `slug[0] === "fa"`
unfoldable pub is_farsi : List Text → Bool
is_farsi [] = false
is_farsi (part ∷ more) = same part (txt "fa")

-- `slug[0] === "fa" && slug[1] === "fa"`
unfoldable pub is_twice_farsi : List Text → Bool
is_twice_farsi slug = is_farsi slug && is_farsi (drop 1 slug)

-- `slug.slice(0, -1)`
unfoldable pub all_but_last : List Text → List Text
all_but_last [] = []
all_but_last (part ∷ []) = []
all_but_last (part ∷ next ∷ more) = part ∷ all_but_last (next ∷ more)

-- The slugs of one document in generateStaticParams.
unfoldable pub params_of : DocEntry → List (List Text)
params_of e =
    if is_index e.slug
    then []
    else if ends_in_index e.slug
    then e.slug ∷ all_but_last e.slug ∷ []
    else e.slug ∷ []

unfoldable pub entry_params : List DocEntry → List (List Text)
entry_params [] = []
entry_params (e ∷ more) = params_of e ++ entry_params more

-- generateStaticParams of the pages without a language.
unfoldable pub generate_static_params : Server → List (List Text)
generate_static_params srv =
    entry_params (get_docs_index srv.unicode srv.collate srv.docs)
    ++ map (λ (r : Text × Text). r.0 ∷ []) legacy_redirects

abbrev pub Doc : Type 0
Doc = DocEntry × Text

-- `none` where reading a file throws, `some none` where there is no such document.
unfoldable pub read_doc : Server → List Text → Option (Option Doc)
read_doc srv slug = read_doc_markdown_by_slug srv.unicode srv.collate srv.docs srv.read_file slug

unfoldable pub read_fallback : Server → Option (List Text) → Option (Option Doc)
read_fallback srv none = some none
read_fallback srv (some slug) = read_doc srv slug

-- The document of the slug, or else that of the index below it.
unfoldable pub read_doc_or_index : Server → List Text → Option (Option Doc)
read_doc_or_index srv slug = elim (read_doc srv slug) [
  | none ↦ none
  | some none ↦ read_fallback srv (try_index_fallback slug)
  | some (some doc) ↦ some (some doc)
]

-- The document that is shown and whether it is the English one in place of a Farsi one.
unfoldable pub resolve : Server → Bool → List Text → Option (Option Doc × Bool)
resolve srv prefers_fa slug = elim (read_doc_or_index srv slug) [
  | none ↦ none
  | some (some doc) ↦ some (some doc, false)
  | some none ↦ elim (prefers_fa && is_farsi slug) [
    | false ↦ some (none, false)
    | true ↦ elim (read_doc_or_index srv (drop 1 slug)) [
      | none ↦ none
      | some none ↦ some (none, false)
      | some (some doc) ↦ some (some doc, true)
    ]
  ]
]

pub record Crumb : Type 0 where
  pub href : Text
  pub label : Text

-- The links to the parts of a slug; `done` are the parts before.
unfoldable pub crumbs_from : Text → List Text → List Text → List Crumb
crumbs_from base done [] = []
crumbs_from base done (part ∷ more) =
    record { href = base ++ txt "/docs/" ++ join (txt "/") (done ++ part ∷ []); label = part }
    ∷ crumbs_from base (done ++ part ∷ []) more

abbrev pub not_index : Text → Bool
not_index part = not (same part index_part)

unfoldable pub display_slug : Bool → List Text → List Text → List Text
display_slug prefers_fa normalized slug =
    filter not_index (if prefers_fa && is_farsi normalized then drop 1 normalized else slug)

-- The label "Docs" in Farsi.
abbrev pub farsi_docs : Text
farsi_docs = 0x645 ∷ 0x633 ∷ 0x62a ∷ 0x646 ∷ 0x62f ∷ 0x627 ∷ 0x62a ∷ []

unfoldable pub crumbs : Text → Bool → List Text → List Crumb
crumbs base prefers_fa shown =
    record { href = base ++ txt "/docs"; label = if prefers_fa then farsi_docs else txt "Docs" }
    ∷ crumbs_from base [] shown

pub record Shown : Type 0 where
  pub doc : DocEntry
  pub used_english_fallback : Bool
  pub links : List Crumb
  pub is_rtl : Bool
  pub rendered : Option (List Block × List TocItem)

pub data Answer : Type 0 where
  redirect : Text → Answer
  not_found : Answer
  threw : Answer
  shown : Shown → Answer

-- renderMarkdown with rounds enough to end, if it ends.
unfoldable pub rendered_doc : Server → Text → Doc → Option (List Block × List TocItem)
rendered_doc srv base (doc, raw) =
    render_markdown (suc (length (lines_of raw))) srv.unicode
      (record { base_slug = doc.slug; base_prefix = some base; route = none }) raw

-- The page of a document.
unfoldable pub shown_doc : Server → Text → Bool → List Text → Doc → Bool → Shown
shown_doc srv base prefers_fa normalized (doc, raw) used_english = record {
  doc = doc;
  used_english_fallback = used_english;
  links = crumbs base prefers_fa (display_slug prefers_fa normalized doc.slug);
  is_rtl = is_farsi doc.slug;
  rendered = rendered_doc srv base (doc, raw);
}

-- What follows the redirect of old addresses.
unfoldable pub normalized_page : Server → Text → Bool → List Text → Answer
normalized_page srv base prefers_fa slug = elim (prefers_fa && is_twice_farsi slug) [
  | true ↦ redirect (base ++ txt "/docs/" ++ join (txt "/") (drop 2 slug))
  | false ↦ elim (is_index slug) [
    | true ↦ redirect (base ++ txt "/docs")
    | false ↦ elim (resolve srv prefers_fa slug) [
      | none ↦ threw
      | some (none, used) ↦ not_found
      | some (some doc, used) ↦ shown (shown_doc srv base prefers_fa slug doc used)
    ]
  ]
]

-- `basePrefix?.trim() ? basePrefix : ""`
unfoldable pub resolved_base : Option Text → Text
resolved_base none = []
resolved_base (some prefix) = if is_empty (trim prefix) then [] else prefix

-- DocPage
unfoldable pub doc_page : Server → Option Text → List Text → Answer
doc_page srv base_prefix slug =
    let base = resolved_base base_prefix in
    elim (try_legacy_redirect srv slug) [
      | some legacy ↦ redirect (base ++ legacy)
      | none ↦ normalized_page srv base (same base (txt "/fa")) (normalize_slug slug)
    ]

-- The page under a language: the slug of a Farsi page is looked up under `fa`.
unfoldable pub mapped_slug : Text → List Text → List Text
mapped_slug lang slug =
    if same lang (txt "fa") && not (is_farsi slug) then txt "fa" ∷ slug else slug

unfoldable pub lang_doc_page : Server → Text → List Text → Answer
lang_doc_page srv lang slug = doc_page srv (some (txt "/" ++ lang)) (mapped_slug lang slug)
