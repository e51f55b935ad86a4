-- ===== src/Tests/Pages.antt =====
-- Examples for the pages of the documents and the posts.
use shadownet_agent.Common.Text.{Text, txt, same}
use shadownet_agent.Common.{
  ◌≡◌, ◌≢◌, ◌⊎◌, refl, arith, Bool, true, false, Option, none, some, List, [], ◌∷◌, ◌++◌, All,
}
use shadownet_agent.Docs.Content.{blog}
use shadownet_agent.Docs.Lookup.{IsPart}
use shadownet_agent.Docs.Navigation.Sidebar.{LinksOn, nav_sections-LinksOn}
use shadownet_agent.Docs.Navigation.Signal.{signal_slug, signal_lem}
use shadownet_agent.Docs.Navigation.{NavSection, NavItem, doc_href, nav_sections}
use shadownet_agent.Docs.Pages.Farsi.{IsEnglish, lang_doc_page-Shows}
use shadownet_agent.Docs.Pages.Links.{Shows, IsPageOf, Leads, generate_static_params-Leads}
use shadownet_agent.Docs.Pages.Localized.{LeadsIn, lang_static_params, lang_static_params-LeadsIn}
use shadownet_agent.Docs.Pages.Reading.{listed}
use shadownet_agent.Docs.Pages.{
  Server, Shown, Crumb, redirect, generate_static_params, resolved_base, doc_page, lang_doc_page,
  shown_doc,
}
use shadownet_agent.Docs.Posts.Listed
use shadownet_agent.Docs.Posts.Listed.{IsPostOf, lang_post_params-Shows}
use shadownet_agent.Docs.Posts.{Store, lang_post_page}
use shadownet_agent.Docs.{DocEntry, get_docs_index, Entries, end, file, directory}
use shadownet_agent.Links.{UiLang, en, fa}
use shadownet_agent.Tests.Files.{collate, docs_tree, home, set_up}
use shadownet_agent.Tests.{ascii}

abbrev server : Server
server = record {
  unicode = ascii;
  collate = collate;
  docs = docs_tree;
  read_file = λ path. some (txt "# Home");
  inherited = λ name. none;
}

generate_static_params-Leads_example : All (Leads server none) (generate_static_params server)
unfolding same resolved_base txt get_docs_index shadownet_agent.Common.Sort.sort
    shadownet_agent.Docs.walk shadownet_agent.Docs.is_hidden shadownet_agent.Common.Text.starts_with
    shadownet_agent.Docs.is_markdown shadownet_agent.Common.Text.ends_with
    shadownet_agent.Docs.entry_of shadownet_agent.Docs.slug_of shadownet_agent.Common.Text.split
    shadownet_agent.Common.Text.strip_md shadownet_agent.Common.Text.join
    shadownet_agent.Docs.Pages.ends_in_index shadownet_agent.Docs.Pages.all_but_last
    shadownet_agent.Common.span shadownet_agent.Common.Sort.insert
    shadownet_agent.Common.Text.is_line_end shadownet_agent.Common.Text.is_md
    shadownet_agent.Common.Text.is_space shadownet_agent.Common.Text.lines_of
    shadownet_agent.Common.Text.split_from shadownet_agent.Common.Text.strip_suffix?
    shadownet_agent.Common.Text.trim shadownet_agent.Common.Text.trim_end
    shadownet_agent.Common.Text.trim_start shadownet_agent.Common.Text.unix_lines
    shadownet_agent.Docs.Titles.capitalize shadownet_agent.Docs.Titles.first_title
    shadownet_agent.Docs.Titles.is_word shadownet_agent.Docs.Titles.read_title
    shadownet_agent.Docs.Titles.spaced shadownet_agent.Docs.Titles.title_from_filename
    shadownet_agent.Docs.Titles.title_of_line
generate_static_params-Leads_example =
    generate_static_params-Leads server none (λ path. (txt "# Home", refl)) refl
      ((refl, refl), ((refl, refl), tt))

-- With a Farsi document.
abbrev farsi_server : Server
farsi_server = record server {
  docs =
      file (txt "index.md") (txt "# Home")
        (directory (txt "fa") (file (txt "install.md") (txt "# Install") end) end);
}

lang_static_params-LeadsIn_example : All (LeadsIn farsi_server) (lang_static_params farsi_server)
unfolding get_docs_index shadownet_agent.Common.Sort.sort shadownet_agent.Docs.walk
    shadownet_agent.Docs.is_hidden shadownet_agent.Common.Text.starts_with txt
    shadownet_agent.Docs.is_markdown shadownet_agent.Common.Text.ends_with
    shadownet_agent.Docs.entry_of shadownet_agent.Docs.slug_of shadownet_agent.Common.Text.split
    shadownet_agent.Common.Text.strip_md shadownet_agent.Common.Text.join
    shadownet_agent.Docs.Pages.ends_in_index shadownet_agent.Docs.Pages.all_but_last
    shadownet_agent.Docs.Pages.is_farsi
lang_static_params-LeadsIn_example =
    lang_static_params-LeadsIn farsi_server (λ path. (txt "# Home", refl))
      (((refl, refl), refl), (((refl, refl), refl), tt))

nav_sections-LinksOn_example :
    All
      (λ (s : NavSection). All (λ (item : NavItem). LinksOn server none item.href) s.items)
      (nav_sections (resolved_base none) (listed server))
unfolding same resolved_base txt get_docs_index shadownet_agent.Common.Sort.sort
    shadownet_agent.Docs.walk shadownet_agent.Docs.is_hidden shadownet_agent.Common.Text.starts_with
    shadownet_agent.Docs.is_markdown shadownet_agent.Common.Text.ends_with
    shadownet_agent.Docs.entry_of shadownet_agent.Docs.slug_of shadownet_agent.Common.Text.split
    shadownet_agent.Common.Text.strip_md shadownet_agent.Common.Text.join
    shadownet_agent.Docs.Pages.ends_in_index shadownet_agent.Docs.Pages.all_but_last
    shadownet_agent.Common.span shadownet_agent.Common.Sort.insert
    shadownet_agent.Common.Text.is_line_end shadownet_agent.Common.Text.is_md
    shadownet_agent.Common.Text.is_space shadownet_agent.Common.Text.lines_of
    shadownet_agent.Common.Text.split_from shadownet_agent.Common.Text.strip_suffix?
    shadownet_agent.Common.Text.trim shadownet_agent.Common.Text.trim_end
    shadownet_agent.Common.Text.trim_start shadownet_agent.Common.Text.unix_lines
    shadownet_agent.Docs.Titles.capitalize shadownet_agent.Docs.Titles.first_title
    shadownet_agent.Docs.Titles.is_word shadownet_agent.Docs.Titles.read_title
    shadownet_agent.Docs.Titles.spaced shadownet_agent.Docs.Titles.title_from_filename
    shadownet_agent.Docs.Titles.title_of_line
nav_sections-LinksOn_example =
    nav_sections-LinksOn server none (λ path. (txt "# Home", refl)) refl
      ((refl, refl), ((refl, refl), tt))

lang_doc_page-Shows_example :
    Shows (lang_doc_page server (txt "fa") (txt "guide" ∷ txt "set-up" ∷ [])) (λ s.
      IsPageOf (txt "fa" ∷ txt "guide" ∷ txt "set-up" ∷ []) s
      ⊎ IsEnglish (txt "guide" ∷ txt "set-up" ∷ []) s)
unfolding get_docs_index shadownet_agent.Common.Sort.sort shadownet_agent.Docs.walk
    shadownet_agent.Docs.is_hidden shadownet_agent.Common.Text.starts_with txt
    shadownet_agent.Docs.is_markdown shadownet_agent.Common.Text.ends_with
    shadownet_agent.Docs.entry_of shadownet_agent.Docs.slug_of
    shadownet_agent.Docs.Titles.read_title shadownet_agent.Common.Text.split
    shadownet_agent.Docs.Titles.first_title shadownet_agent.Common.Text.strip_md
    shadownet_agent.Common.Text.lines_of shadownet_agent.Common.Text.join
    shadownet_agent.Docs.Titles.title_of_line shadownet_agent.Common.span
    shadownet_agent.Docs.Titles.title_from_filename shadownet_agent.Common.Text.is_space
    shadownet_agent.Docs.Titles.capitalize shadownet_agent.Common.Text.is_line_end
    shadownet_agent.Docs.Titles.spaced shadownet_agent.Common.Text.trim
    shadownet_agent.Docs.Titles.is_word shadownet_agent.Docs.Pages.is_farsi
lang_doc_page-Shows_example =
    lang_doc_page-Shows server set_up (λ path. (txt "# Home", refl)) (home ∷ [], [], refl) refl refl

guide-IsPart : All IsPart (txt "guide" ∷ txt "set-up" ∷ [])
unfolding txt
guide-IsPart = (
  (refl, (omega arith, (omega arith, (omega arith, (omega arith, (omega arith, tt)))))),
  (
    (
      refl,
      (omega arith, (omega arith, (omega arith, (omega arith, (omega arith, (omega arith, tt)))))),
    ),
    tt,
  ),
)

abbrev guide_page : Shown
guide_page =
    shown_doc server [] false (txt "guide" ∷ txt "set-up" ∷ []) (set_up, txt "# Home") false

signal_lem_example :
    (doc_page server none signal_slug ≡ redirect (doc_href (resolved_base none) signal_slug))
    × (guide_page.doc.slug ≢ signal_slug)
unfolding same resolved_base txt doc_page shadownet_agent.Docs.Pages.try_legacy_redirect
    shadownet_agent.Docs.Pages.normalized_page shadownet_agent.Docs.Pages.is_index
    shadownet_agent.Docs.Pages.normalize_slug shadownet_agent.Docs.Pages.resolve
    shadownet_agent.Docs.Pages.read_doc_or_index shadownet_agent.Docs.Pages.read_doc
    shadownet_agent.Docs.read_doc_markdown_by_slug shadownet_agent.Docs.get_doc_by_slug
    get_docs_index shadownet_agent.Common.Sort.sort shadownet_agent.Docs.walk
    shadownet_agent.Docs.is_hidden shadownet_agent.Common.Text.starts_with
    shadownet_agent.Docs.is_markdown shadownet_agent.Common.Text.ends_with
    shadownet_agent.Common.Text.join shadownet_agent.Docs.entry_of shadownet_agent.Docs.slug_of
    shadownet_agent.Common.Text.split shadownet_agent.Common.Text.strip_md
    shadownet_agent.Docs.Titles.read_title shadownet_agent.Docs.Titles.first_title
    shadownet_agent.Common.Text.lines_of shadownet_agent.Docs.Titles.title_of_line
    shadownet_agent.Docs.Titles.title_from_filename shadownet_agent.Docs.Titles.capitalize
    shadownet_agent.Docs.Titles.spaced shadownet_agent.Docs.Titles.is_word
signal_lem_example =
    signal_lem server none (txt "guide" ∷ txt "set-up" ∷ []) guide_page
      (λ path. (txt "# Home", refl)) refl guide-IsPart refl

-- The post in both languages.
abbrev translated_tree : Entries
translated_tree =
    directory (txt "en") (directory (txt "blog") (file (txt "post.md") (txt "# Hi") end) end) (
      directory (txt "fa") (directory (txt "blog") (file (txt "post.md") (txt "# Hi") end) end) end)

abbrev store : Store
store = record {
  unicode = ascii;
  collate = collate;
  content = translated_tree;
  read_file = λ path. some (txt "# Hi");
}

lang_post_params-Shows_example :
    All
      (λ (p : UiLang × List Text).
        Listed.Shows (lang_post_page store blog p.0 p.1) (IsPostOf blog p.0 p.1))
      ((en, txt "post" ∷ []) ∷ (fa, txt "post" ∷ []) ∷ [])
unfolding shadownet_agent.Docs.Posts.lang_post_params shadownet_agent.Docs.Content.get_content_index
    shadownet_agent.Docs.Content.content_base shadownet_agent.Docs.Content.find_directory same txt
    shadownet_agent.Common.Sort.sort shadownet_agent.Docs.walk shadownet_agent.Docs.is_hidden
    shadownet_agent.Common.Text.starts_with shadownet_agent.Docs.is_markdown
    shadownet_agent.Common.Text.ends_with shadownet_agent.Docs.entry_of shadownet_agent.Docs.slug_of
    shadownet_agent.Common.Text.split shadownet_agent.Common.Text.strip_md
    shadownet_agent.Common.Text.join
lang_post_params-Shows_example =
    lang_post_params-Shows store blog ((en, txt "post" ∷ []) ∷ (fa, txt "post" ∷ []) ∷ [])
      (λ path. (txt "# Hi", refl)) refl
