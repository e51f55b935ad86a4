-- ===== src/Docs/Content.antt =====
-- Content by type and language: getContentIndex and getContentBySlug of
-- website/src/lib/content/fs.ts, over the tree under the root of content.
use mathlib.Core.Option.{some_inj}
use shadownet_agent.Common.Int.{ℤ}
use shadownet_agent.Common.Sort.{sort, All-sort}
use shadownet_agent.Common.Text.Laws.{same_sound}
use shadownet_agent.Common.Text.{Text, txt, same, Unicode}
use shadownet_agent.Common.{
  ◌≡◌, refl, subst, Option, none, some, List, [], ◌∷◌, map, find, if◌then◌else◌, All, Bool-cases,
  Option-cases, none_absurd, inl, inr,
}
use shadownet_agent.Docs.Lookup.{HasSlug, walk-HasSlug, slug_key_inj, IsPart}
use shadownet_agent.Docs.{Entries, end, file, directory, other, DocEntry, walk, slug_key, entry_le}
use shadownet_agent.Links.{UiLang, en, fa}

pub data ContentType : Type 0 where
  blog docs pages updates : ContentType

abbrev pub type_name : ContentType → Text
type_name blog = txt "blog"
type_name docs = txt "docs"
type_name pages = txt "pages"
type_name updates = txt "updates"

abbrev pub lang_name : UiLang → Text
lang_name en = txt "en"
lang_name fa = txt "fa"

pub record ContentEntry : Type 0 where
  pub type : ContentType
  pub lang : UiLang
  pub doc : DocEntry

-- The directory of a name; `readdir` of a missing one throws.
unfoldable pub find_directory : Text → Entries → Option Entries
find_directory name end = none
find_directory name (file n contents more) = find_directory name more
find_directory name (other n more) = find_directory name more
find_directory name (directory n entries more) =
    let rest = find_directory name more in if same n name then some entries else rest

-- `path.join(root, lang, type)`
unfoldable pub content_base : ContentType → UiLang → Entries → Option Entries
content_base type lang root = elim (find_directory (lang_name lang) root) [
  | none ↦ none
  | some entries ↦ find_directory (type_name type) entries
]

-- The walk of this file is that of the documents.
abbrev pub content_walk : Unicode → Entries → List DocEntry
content_walk u base = walk u [] base

-- getContentIndex; `none` where `walk` throws.
unfoldable pub get_content_index :
    Unicode → (Text → Text → ℤ) → ContentType → UiLang → Entries → Option (List ContentEntry)
get_content_index u collate type lang root = elim (content_base type lang root) [
  | none ↦ none
  | some base ↦ some (
      map (λ (e : DocEntry). record { type = type; lang = lang; doc = e })
        (sort (entry_le collate) (content_walk u base)))
]

-- getContentBySlug: `none` where it throws, `some none` where there is no such entry.
unfoldable pub get_content_by_slug :
    Unicode
    → (Text → Text → ℤ)
    → ContentType
    → UiLang
    → Entries
    → List Text
    → Option (Option ContentEntry)
get_content_by_slug u collate type lang root slug =
    elim (get_content_index u collate type lang root) [
      | none ↦ none
      | some entries ↦
          some (find (λ (e : ContentEntry). same (slug_key e.doc.slug) (slug_key slug)) entries)
    ]

-- readContentMarkdownBySlug, with `readFile` as `read`; `none` where a call throws.
unfoldable pub read_content_markdown_by_slug :
    Unicode
    → (Text → Text → ℤ)
    → ContentType
    → UiLang
    → Entries
    → (List Text → Option Text)
    → List Text
    → Option (Option (ContentEntry × Text))
read_content_markdown_by_slug u collate type lang root read slug =
    elim (get_content_by_slug u collate type lang root slug) [
      | none ↦ none
      | some none ↦ some none
      | some (some entry) ↦ elim (read entry.doc.file_path) [
        | none ↦ none
        | some raw ↦ some (some (entry, raw))
      ]
    ]

abbrev pub Answers : ContentType → UiLang → List Text → ContentEntry → Type 0
Answers type lang slug e = (e.type ≡ type) × (e.lang ≡ lang) × (e.doc.slug ≡ slug)

find-Answers :
    (type : ContentType) (lang : UiLang) (slug : List Text) (listed : List DocEntry)
    (e : ContentEntry)
    → All IsPart slug
    → All HasSlug listed
    → find
        (λ (x : ContentEntry). same (slug_key x.doc.slug) (slug_key slug))
        (map (λ (x : DocEntry). record { type = type; lang = lang; doc = x }) listed)
      ≡ some e
    → Answers type lang slug e
find-Answers type lang slug [] e p h k = none_absurd k
find-Answers type lang slug (d ∷ listed) e p (q, h) k =
    elim (Bool-cases (same (slug_key d.slug) (slug_key slug))) [
      | inl t ↦ subst (Answers type lang slug) (some_inj.0 (rw t at k)) (
        refl,
        refl,
        slug_key_inj d.slug slug q p (same_sound (slug_key d.slug) (slug_key slug) t),
      )
      | inr t ↦ find-Answers type lang slug listed e p h (rw t at k)
    ]

pub get_content_by_slug_lem :
    (u : Unicode) (collate : Text → Text → ℤ) (type : ContentType) (lang : UiLang) (root : Entries)
    (slug : List Text) (e : ContentEntry)
    → All IsPart slug
    → get_content_by_slug u collate type lang root slug ≡ some (some e)
    → Answers type lang slug e
unfolding get_content_by_slug get_content_index
get_content_by_slug_lem u collate type lang root slug e p h =
    elim (Option-cases (content_base type lang root)) [
      | inl k ↦ none_absurd (rw (k, get_content_by_slug) at h)
      | inr (base, k) ↦
          find-Answers type lang slug (sort (entry_le collate) (walk u [] base)) e p
            (All-sort (entry_le collate) HasSlug (walk u [] base) (walk-HasSlug u [] base))
            (some_inj.0 (rw (k, get_content_by_slug) at h))
    ]
