-- ===== src/Docs/Pages/Reading.antt =====
-- What the pages of website/src/app/docs/[...slug]/page.tsx find under a slug: the document with that
-- slug, or else the index below it.
use shadownet_agent.Common.Text.Laws.{same_iff}
use shadownet_agent.Common.Text.{Text, txt}
use shadownet_agent.Common.{
  ◌≡◌, refl, ap, true, subst, arith, ◌∙◌, All-append, ◌⊎◌, inl, inr, false, none, some, List, [],
  ◌∷◌, ◌++◌, Bool-cases, Option-cases, All,
}
use shadownet_agent.Common.Sort.{All-sort}
use shadownet_agent.Docs.Lookup.{
  IsPart, HasSlug, walk-HasSlug, get_doc_by_slug_lem, get_doc_by_slug-slug,
}
use shadownet_agent.Docs.Pages.{
  all_but_last, Server, Doc, index_part, ends_in_index, try_index_fallback, read_doc, read_fallback,
  read_doc_or_index,
}
use shadownet_agent.Docs.{
  DocEntry, walk, entry_le, get_docs_index, get_doc_by_slug, read_doc_markdown_by_slug,
}

-- Each file can be read.
abbrev pub Readable : Server → Type 0
Readable srv = (path : List Text) → (raw : Text) × (srv.read_file path ≡ some raw)

abbrev pub listed : Server → List DocEntry
listed srv = get_docs_index srv.unicode srv.collate srv.docs

-- A document of the index.
abbrev pub Listed : Server → DocEntry → Type 0
Listed srv e =
    (before : List DocEntry) × (after : List DocEntry) × (listed srv ≡ before ++ e ∷ after)

All-at :
    (P : DocEntry → Type 0) (before after : List DocEntry) (e : DocEntry)
    → All P (before ++ e ∷ after)
    → P e
All-at P [] after e h = h.0
All-at P (b ∷ before) after e h = All-at P before after e h.1

pub Listed-IsPart : (srv : Server) (e : DocEntry) → Listed srv e → All IsPart e.slug
unfolding get_docs_index
Listed-IsPart srv e (before, after, h) = All-at HasSlug before after e (
    subst (All HasSlug) h (
      All-sort (entry_le srv.collate) HasSlug (walk srv.unicode [] srv.docs)
        (walk-HasSlug srv.unicode [] srv.docs)))

pub read_doc-Listed :
    (srv : Server) (e : DocEntry)
    → Readable srv
    → Listed srv e
    → (d : Doc) × (read_doc srv e.slug ≡ some (some d)) × (d.0.slug ≡ e.slug)
unfolding read_doc read_doc_markdown_by_slug
read_doc-Listed srv e readable (before, after, h) =
    let (f, p, q) = get_doc_by_slug_lem srv.unicode srv.collate srv.docs before after e h in
    let (raw, k) = readable f.file_path in ((f, raw), rw (p, read_doc_markdown_by_slug, k) refl, q)

-- What a slug of parts finds has that slug.
pub read_doc-slug :
    (srv : Server) (slug : List Text)
    → Readable srv
    → All IsPart slug
    → (read_doc srv slug ≡ some none)
      ⊎ ((d : Doc) × (read_doc srv slug ≡ some (some d)) × (d.0.slug ≡ slug))
unfolding read_doc read_doc_markdown_by_slug
read_doc-slug srv slug readable parts =
    elim (Option-cases (get_doc_by_slug srv.unicode srv.collate srv.docs slug)) [
      | inl e ↦ inl (rw (e, read_doc_markdown_by_slug) refl)
      | inr (f, e) ↦
          let (raw, k) = readable f.file_path in
          inr (
            (f, raw),
            rw (e, read_doc_markdown_by_slug, k) refl,
            get_doc_by_slug-slug srv.unicode srv.collate srv.docs slug f parts e,
          )
    ]

-- The document of the slug or the index below it.
abbrev pub At : List Text → Doc → Type 0
At slug d = (d.0.slug ≡ slug) ⊎ (d.0.slug ≡ slug ++ index_part ∷ [])

abbrev pub FoundAt : Server → List Text → Type 0
FoundAt srv slug = (d : Doc) × (read_doc_or_index srv slug ≡ some (some d)) × At slug d

pub read_direct :
    (srv : Server) (e : DocEntry)
    → Readable srv
    → Listed srv e
    → (d : Doc) × (read_doc_or_index srv e.slug ≡ some (some d)) × (d.0.slug ≡ e.slug)
unfolding read_doc_or_index
read_direct srv e readable l =
    let (d, p, q) = read_doc-Listed srv e readable l in (d, rw (p, read_doc_or_index) refl, q)

-- The index below a slug is found if there is no document with the slug itself.
pub read_below :
    (srv : Server) (e : DocEntry) (part : Text) (more : List Text)
    → Readable srv
    → Listed srv e
    → e.slug ≡ (part ∷ more) ++ index_part ∷ []
    → All IsPart (part ∷ more)
    → ends_in_index (part ∷ more) ≡ false
    → FoundAt srv (part ∷ more)
unfolding read_doc_or_index try_index_fallback read_fallback
read_below srv e part more readable l k parts f =
    elim (read_doc-slug srv (part ∷ more) readable parts) [
      | inr (d, p, q) ↦ (d, rw (p, read_doc_or_index) refl, inl q)
      | inl p ↦
          let (d, r, q) = read_doc-Listed srv e readable l in
          (
            d,
            rw (p, read_doc_or_index, f)
                (subst (λ (s : List Text). read_doc srv s ≡ some (some d)) k r),
            inr (q ∙ k),
          )
    ]

read_fallback-At :
    (srv : Server) (slug : List Text)
    → Readable srv
    → All IsPart (slug ++ index_part ∷ [])
    → read_doc srv slug ≡ some none
    → (read_doc_or_index srv slug ≡ some none) ⊎ FoundAt srv slug
unfolding read_doc_or_index try_index_fallback read_fallback
read_fallback-At srv [] readable parts p = inl (rw (p, read_doc_or_index) refl)
read_fallback-At srv (part ∷ more) readable parts p =
    elim (Bool-cases (ends_in_index (part ∷ more))) [
      | inl t ↦ inl (rw (p, read_doc_or_index, t) refl)
      | inr t ↦ elim (read_doc-slug srv ((part ∷ more) ++ index_part ∷ []) readable parts) [
        | inl n ↦ inl (rw (p, read_doc_or_index, t) n)
        | inr (d, r, q) ↦ inr (d, rw (p, read_doc_or_index, t) r, inr q)
      ]
    ]

index-IsPart : IsPart index_part
unfolding txt
index-IsPart = (refl, omega arith)

-- Under a slug of parts nothing is found, or the document of the slug or of the index below it.
pub read_doc_or_index-At :
    (srv : Server) (slug : List Text)
    → Readable srv
    → All IsPart slug
    → (read_doc_or_index srv slug ≡ some none) ⊎ FoundAt srv slug
unfolding read_doc_or_index
read_doc_or_index-At srv slug readable parts = elim (read_doc-slug srv slug readable parts) [
  | inr (d, p, q) ↦ inr (d, rw (p, read_doc_or_index) refl, inl q)
  | inl p ↦
      read_fallback-At srv slug readable
        (All-append IsPart slug (index_part ∷ []) parts (index-IsPart, tt)) p
]

last_is_index :
    (part : Text) (more : List Text)
    → ends_in_index (part ∷ more) ≡ true
    → part ∷ more ≡ all_but_last (part ∷ more) ++ index_part ∷ []
unfolding ends_in_index all_but_last
last_is_index part [] h = ap (λ (t : Text). t ∷ []) ((same_iff part index_part).0 h)
last_is_index part (next ∷ more) h = ap (λ (ts : List Text). part ∷ ts) (last_is_index next more h)

all_but_last-IsPart : (slug : List Text) → All IsPart slug → All IsPart (all_but_last slug)
unfolding all_but_last
all_but_last-IsPart [] h = tt
all_but_last-IsPart (part ∷ []) h = tt
all_but_last-IsPart (part ∷ next ∷ more) (p, h) = (p, all_but_last-IsPart (next ∷ more) h)

-- If a document is an index, the slug without that last part shows it, or the document with that slug.
pub found_below :
    (srv : Server) (e : DocEntry) (part next : Text) (more : List Text)
    → Readable srv
    → Listed srv e
    → e.slug ≡ part ∷ next ∷ more
    → ends_in_index (part ∷ all_but_last (next ∷ more)) ≡ false
    → ends_in_index (part ∷ next ∷ more) ≡ true
    → FoundAt srv (part ∷ all_but_last (next ∷ more))
unfolding all_but_last ends_in_index
found_below srv e part next more readable l k one last =
    read_below srv e part (all_but_last (next ∷ more)) readable l
      (k ∙ last_is_index part (next ∷ more) last)
      (all_but_last-IsPart (part ∷ next ∷ more) (subst (All IsPart) k (Listed-IsPart srv e l))) one
