-- ===== src/Docs/Posts.antt =====
-- The posts of the blog and the updates: website/src/app/blog/[...slug]/page.tsx and
-- website/src/app/updates/[...slug]/page.tsx, which differ in the type of content, and the lists of
-- website/src/app/blog/page.tsx and website/src/app/updates/page.tsx.
pub mod Listed
use shadownet_agent.Common.Int.{ℤ}
use shadownet_agent.Common.Text.{Text, txt, same, join, lines_of, Unicode}
use shadownet_agent.Common.{
  ℕ, suc, Bool, true, false, Option, none, some, List, [], ◌∷◌, ◌++◌, map, length, if◌then◌else◌,
}
use shadownet_agent.Docs.Content.{
  ContentType, ContentEntry, type_name, lang_name, get_content_index, read_content_markdown_by_slug,
}
use shadownet_agent.Docs.Pages.{resolved_base}
use shadownet_agent.Docs.{Entries}
use shadownet_agent.Links.{UiLang, en, fa}
use shadownet_agent.Markdown.Blocks.{Block, TocItem, render_markdown}
use shadownet_agent.Markdown.Href.{Page}

-- The tree of content and what the engine gives.
pub record Store : Type 0 where
  pub unicode : Unicode
  pub collate : Text → Text → ℤ
  pub content : Entries
  pub read_file : List Text → Option Text

abbrev pub Post : Type 0
Post = ContentEntry × Text

-- `none` where reading throws, `some none` where there is no such post.
unfoldable pub read_post : Store → ContentType → UiLang → List Text → Option (Option Post)
read_post st type lang slug =
    read_content_markdown_by_slug st.unicode st.collate type lang st.content st.read_file slug

-- The post that is shown, and whether it is the English one in place of a Farsi one.
unfoldable pub resolve_post : Store → ContentType → Bool → List Text → Option (Option Post × Bool)
resolve_post st type is_fa slug = elim (read_post st type (if is_fa then fa else en) slug) [
  | none ↦ none
  | some (some post) ↦ some (some post, false)
  | some none ↦ elim is_fa [
    | false ↦ some (none, false)
    | true ↦ elim (read_post st type en slug) [
      | none ↦ none
      | some none ↦ some (none, false)
      | some (some post) ↦ some (some post, true)
    ]
  ]
]

pub record ShownPost : Type 0 where
  pub entry : ContentEntry
  pub used_english_fallback : Bool
  pub back_href : Text
  pub crumb : Text
  pub is_rtl : Bool
  pub rendered : Option (List Block × List TocItem)

pub data PostAnswer : Type 0 where
  not_found : PostAnswer
  threw : PostAnswer
  shown : ShownPost → PostAnswer

-- renderMarkdown with rounds enough to end, if it ends.
unfoldable pub rendered_post :
    Store → ContentType → Text → Post → Option (List Block × List TocItem)
rendered_post st type base (entry, raw) =
    render_markdown (suc (length (lines_of raw))) st.unicode
      (record {
        base_slug = entry.doc.slug;
        base_prefix = some base;
        route = some (type_name type);
      })
      raw

unfoldable pub shown_post : Store → ContentType → Text → Bool → List Text → Post → Bool → ShownPost
shown_post st type base is_fa slug (entry, raw) used_english = record {
  entry = entry;
  used_english_fallback = used_english;
  back_href = base ++ txt "/" ++ type_name type;
  crumb = join (txt "/") slug;
  is_rtl = is_fa;
  rendered = rendered_post st type base (entry, raw);
}

-- BlogPostPage and UpdatePage
unfoldable pub post_page : Store → ContentType → Option Text → List Text → PostAnswer
post_page st type base_prefix slug =
    let base = resolved_base base_prefix in
    let is_fa = same base (txt "/fa") in
    elim (resolve_post st type is_fa slug) [
      | none ↦ threw
      | some (none, used) ↦ not_found
      | some (some post, used) ↦ shown (shown_post st type base is_fa slug post used)
    ]

-- generateStaticParams; `none` where it throws.
unfoldable pub post_params : Store → ContentType → Option (List (List Text))
post_params st type = elim (get_content_index st.unicode st.collate type en st.content) [
  | none ↦ none
  | some posts ↦ some (map (λ (e : ContentEntry). e.doc.slug) posts)
]

pub record PostLink : Type 0 where
  pub href : Text
  pub title : Text
  pub description : Text

-- The prefix of the links and the language of the list, by the parameter of the route.
unfoldable pub list_base : Option Text → Text
list_base none = []
list_base (some lang) =
    if same lang (txt "fa") then txt "/fa" else if same lang (txt "en") then txt "/en" else []

unfoldable pub list_lang : Option Text → UiLang
list_lang none = en
list_lang (some lang) = if same lang (txt "fa") then fa else en

unfoldable pub post_link : ContentType → Text → ContentEntry → PostLink
post_link type base e = record {
  href = base ++ txt "/" ++ type_name type ++ txt "/" ++ join (txt "/") e.doc.slug;
  title = e.doc.title;
  description = join (txt "/") e.doc.slug;
}

-- The links of BlogIndexPage and UpdatesIndexPage; `none` where the index throws.
unfoldable pub post_links : Store → ContentType → Option Text → Option (List PostLink)
post_links st type lang =
    elim (get_content_index st.unicode st.collate type (list_lang lang) st.content) [
      | none ↦ none
      | some posts ↦ some (map (post_link type (list_base lang)) posts)
    ]

-- generateStaticParams and the page under a language.
unfoldable pub lang_post_params : Store → ContentType → Option (List (UiLang × List Text))
lang_post_params st type = elim (get_content_index st.unicode st.collate type en st.content) [
  | none ↦ none
  | some english ↦ elim (get_content_index st.unicode st.collate type fa st.content) [
    | none ↦ none
    | some farsi ↦ some (
        map (λ (e : ContentEntry). (en, e.doc.slug)) english
        ++ map (λ (e : ContentEntry). (fa, e.doc.slug)) farsi)
  ]
]

unfoldable pub lang_post_page : Store → ContentType → UiLang → List Text → PostAnswer
lang_post_page st type lang slug = post_page st type (some (txt "/" ++ lang_name lang)) slug
