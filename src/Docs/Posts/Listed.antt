-- ===== src/Docs/Posts/Listed.antt =====
-- Each post that website/src/app/[lang]/blog/[...slug]/page.tsx or its like for updates is built for is shown.
use mathlib.Core.Option.{some_inj}
use shadownet_agent.Common.Sort.{sort, All-sort}
use shadownet_agent.Common.Text.{Text, txt, same, trim, trim_start, trim_end, is_space}
use shadownet_agent.Common.Text.Laws.{same_refl}
use shadownet_agent.Common.{
  ◌≡◌, map-All, find-exists, refl, sym, ap, subst, ◌∙◌, inl, inr, Bool, false, Option, some, List,
  [], ◌∷◌, ◌++◌, map, All, All-append, append_assoc, Option-cases, none_absurd, span, if◌then◌else◌,
}
use shadownet_agent.Docs.Content.{
  ContentType, ContentEntry, Answers, lang_name, content_base, get_content_index,
  get_content_by_slug, get_content_by_slug_lem, read_content_markdown_by_slug,
}
use shadownet_agent.Docs.Lookup.{HasSlug, walk-HasSlug, IsPart}
use shadownet_agent.Docs.Pages.{resolved_base}
use shadownet_agent.Docs.Posts.{
  Store, Post, read_post, resolve_post, ShownPost, PostAnswer, shown, shown_post, post_page,
  lang_post_params, lang_post_page,
}
use shadownet_agent.Docs.{DocEntry, walk, entry_le, slug_key}
use shadownet_agent.Links.{UiLang, en, fa}

-- Each file can be read.
abbrev pub Readable : Store → Type 0
Readable st = (path : List Text) → (raw : Text) × (st.read_file path ≡ some raw)

abbrev pub index_of : Store → ContentType → UiLang → Option (List ContentEntry)
index_of st type lang = get_content_index st.unicode st.collate type lang st.content

abbrev HasParts : ContentEntry → Type 0
HasParts e = All IsPart e.doc.slug

index-HasParts :
    (st : Store) (type : ContentType) (lang : UiLang) (posts : List ContentEntry)
    → index_of st type lang ≡ some posts
    → All HasParts posts
unfolding get_content_index
index-HasParts st type lang posts h = elim (Option-cases (content_base type lang st.content)) [
  | inl e ↦ none_absurd (rw (e, get_content_index) at h)
  | inr (base, e) ↦ subst (All HasParts) (some_inj.0 (rw (e, get_content_index) at h)) (
      map-All HasParts (λ (d : DocEntry). record { type = type; lang = lang; doc = d })
        (sort (entry_le st.collate) (walk st.unicode [] base))
        (All-sort (entry_le st.collate) HasSlug (walk st.unicode [] base)
          (walk-HasSlug st.unicode [] base)))
]

All-at :
    (P : ContentEntry → Type 0) (before after : List ContentEntry) (e : ContentEntry)
    → All P (before ++ e ∷ after)
    → P e
All-at P [] after e h = h.0
All-at P (b ∷ before) after e h = All-at P before after e h.1

-- A post of the index is found by its slug, or another of the same type, language and slug is.
pub get_content-listed :
    (st : Store) (type : ContentType) (lang : UiLang) (before after : List ContentEntry)
    (e : ContentEntry)
    → index_of st type lang ≡ some (before ++ e ∷ after)
    → (f : ContentEntry) × (get_content_by_slug st.unicode st.collate type lang st.content
          e.doc.slug
        ≡ some (some f))
      × Answers type lang e.doc.slug f
unfolding get_content_by_slug
get_content-listed st type lang before after e h =
    let parts =
      All-at HasParts before after e (index-HasParts st type lang (before ++ e ∷ after) h) in
    let (f, k) =
      find-exists (λ (x : ContentEntry). same (slug_key x.doc.slug) (slug_key e.doc.slug)) before
        after e (same_refl (slug_key e.doc.slug)) in
    let got : get_content_by_slug st.unicode st.collate type lang st.content e.doc.slug
        ≡ some (some f) =
      rw (h, get_content_by_slug, k) refl in
    (
      f,
      got,
      get_content_by_slug_lem st.unicode st.collate type lang st.content e.doc.slug f parts got,
    )

read_post-listed :
    (st : Store) (type : ContentType) (lang : UiLang) (before after : List ContentEntry)
    (e : ContentEntry)
    → Readable st
    → index_of st type lang ≡ some (before ++ e ∷ after)
    → (post : Post) × (read_post st type lang e.doc.slug ≡ some (some post))
      × Answers type lang e.doc.slug post.0
unfolding read_post read_content_markdown_by_slug
read_post-listed st type lang before after e readable h =
    let (f, k, answers) = get_content-listed st type lang before after e h in
    let (raw, r) = readable f.doc.file_path in
    ((f, raw), rw (k, read_content_markdown_by_slug, r) refl, answers)

abbrev pub Shows : PostAnswer → (ShownPost → Type 0) → Type 0
Shows answer P = (s : ShownPost) × (answer ≡ shown s) × P s

-- A page of the type, the language and the slug, without the notice of a missing translation.
abbrev pub IsPostOf : ContentType → UiLang → List Text → ShownPost → Type 0
IsPostOf type lang slug s = (s.used_english_fallback ≡ false) × Answers type lang slug s.entry

lang_of_base :
    (lang : UiLang)
    → (if same (resolved_base (some (txt "/" ++ lang_name lang))) (txt "/fa") then fa else en)
      ≡ lang
unfolding resolved_base txt same trim trim_start trim_end is_space span
lang_of_base en = refl
lang_of_base fa = refl

resolve_direct :
    (st : Store) (type : ContentType) (is_fa : Bool) (slug : List Text) (post : Post)
    → read_post st type (if is_fa then fa else en) slug ≡ some (some post)
    → resolve_post st type is_fa slug ≡ some (some post, false)
unfolding resolve_post
resolve_direct st type is_fa slug post h = rw (h, resolve_post) refl

resolved_post_page :
    (st : Store) (type : ContentType) (base_prefix : Option Text) (slug : List Text) (post : Post)
    (used : Bool)
    → resolve_post st type (same (resolved_base base_prefix) (txt "/fa")) slug
      ≡ some (some post, used)
    → Shows
        (post_page st type base_prefix slug)
        (λ s. (s.used_english_fallback ≡ used) × (s.entry ≡ post.0))
unfolding post_page shown_post
resolved_post_page st type base_prefix slug (entry, raw) used h =
    let base = resolved_base base_prefix in
    (
      shown_post st type base (same base (txt "/fa")) slug (entry, raw) used,
      rw (h, post_page) refl,
      (refl, refl),
    )

post_page-Shows :
    (st : Store) (type : ContentType) (lang : UiLang) (before after : List ContentEntry)
    (e : ContentEntry)
    → Readable st
    → index_of st type lang ≡ some (before ++ e ∷ after)
    → Shows (lang_post_page st type lang e.doc.slug) (IsPostOf type lang e.doc.slug)
unfolding lang_post_page
post_page-Shows st type lang before after e readable h =
    let (post, k, answers) = read_post-listed st type lang before after e readable h in
    let prefix = some (txt "/" ++ lang_name lang) in
    let (s, page, (used, entry)) = resolved_post_page st type prefix e.doc.slug post false (
      resolve_direct st type (same (resolved_base prefix) (txt "/fa")) e.doc.slug post (
        subst (λ l. read_post st type l e.doc.slug ≡ some (some post)) (sym (lang_of_base lang))
          k)) in
    (s, page, (used, subst (Answers type lang e.doc.slug) (sym entry) answers))

abbrev ParamShows : Store → ContentType → UiLang × List Text → Type 0
ParamShows st type p = Shows (lang_post_page st type p.0 p.1) (IsPostOf type p.0 p.1)

params-Shows :
    (st : Store) (type : ContentType) (lang : UiLang) (before after : List ContentEntry)
    → Readable st
    → index_of st type lang ≡ some (before ++ after)
    → All (ParamShows st type) (map (λ (e : ContentEntry). (lang, e.doc.slug)) after)
params-Shows st type lang before [] readable h = tt
params-Shows st type lang before (e ∷ after) readable h = (
  post_page-Shows st type lang before after e readable h,
  params-Shows st type lang (before ++ e ∷ []) after readable
      (h ∙ ap some (sym (append_assoc before (e ∷ []) after))),
)

-- Each post of the two languages that the site is built for has a page that shows the post of the type, the
-- language and the slug asked for, and no English one in its place. The files can be read.
pub lang_post_params-Shows :
    (st : Store) (type : ContentType) (params : List (UiLang × List Text))
    → Readable st
    → lang_post_params st type ≡ some params
    → All
        (λ (p : UiLang × List Text). Shows (lang_post_page st type p.0 p.1) (IsPostOf type p.0 p.1))
        params
unfolding lang_post_params
lang_post_params-Shows st type params readable h = elim (Option-cases (index_of st type en)) [
  | inl e ↦ none_absurd (rw (e, lang_post_params) at h)
  | inr (english, e) ↦ elim (Option-cases (index_of st type fa)) [
    | inl f ↦ none_absurd (rw (e, lang_post_params, f) at h)
    | inr (farsi, f) ↦
        subst (All (ParamShows st type)) (some_inj.0 (rw (e, lang_post_params, f) at h)) (
          All-append (ParamShows st type) (map (λ (p : ContentEntry). (en, p.doc.slug)) english)
            (map (λ (p : ContentEntry). (fa, p.doc.slug)) farsi)
            (params-Shows st type en [] english readable e)
            (params-Shows st type fa [] farsi readable f))
  ]
]
