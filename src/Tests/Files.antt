-- ===== src/Tests/Files.antt =====
-- Examples for the documentation and content files, and the routes to the runtime.
use shadownet_agent.Common.Int.{ℤ, pos}
use shadownet_agent.Common.Text.{Text, txt, same, join}
use shadownet_agent.Common.{ℕ, ◌≡◌, ◌⊎◌, refl, Bool, true, false, Option, none, some, List, [], ◌∷◌}
use shadownet_agent.Docs.Content.{ContentType, blog, ContentEntry}
use shadownet_agent.Docs.Lookup.{get_doc_by_slug_lem}
use shadownet_agent.Docs.{Entries, end, file, directory, DocEntry, get_docs_index, get_doc_by_slug}
use shadownet_agent.Links.{en}
use shadownet_agent.Runtime.Proxy.{Fetch, IsSent, proxy_get, events_route, proxy-IsSent}
use shadownet_agent.Tests.{ascii}

abbrev pub collate : Text → Text → ℤ
collate a b = pos 0

abbrev pub docs_tree : Entries
docs_tree =
    file (txt "index.md") (txt "# Home")
      (directory (txt "guide") (file (txt "set-up.md") (txt "Text") end) end)

abbrev pub home : DocEntry
home = record { slug = txt "index" ∷ []; file_path = txt "index.md" ∷ []; title = txt "Home" }

abbrev pub set_up : DocEntry
set_up = record {
  slug = txt "guide" ∷ txt "set-up" ∷ [];
  file_path = txt "guide" ∷ txt "set-up.md" ∷ [];
  title = txt "Set Up";
}

get_doc_by_slug_lem_example :
    (f : DocEntry) × (get_doc_by_slug ascii collate docs_tree (txt "guide" ∷ txt "set-up" ∷ [])
      ≡ some f)
    × (f.slug ≡ txt "guide" ∷ txt "set-up" ∷ [])
unfolding get_docs_index shadownet_agent.Docs.slug_of shadownet_agent.Docs.is_hidden
    shadownet_agent.Docs.is_markdown shadownet_agent.Docs.entry_of shadownet_agent.Docs.walk
    shadownet_agent.Docs.Titles.spaced shadownet_agent.Docs.Titles.is_word
    shadownet_agent.Docs.Titles.capitalize shadownet_agent.Docs.Titles.title_from_filename
    shadownet_agent.Docs.Titles.title_of_line shadownet_agent.Docs.Titles.first_title
    shadownet_agent.Docs.Titles.read_title shadownet_agent.Common.Text.txt
    shadownet_agent.Common.Text.same shadownet_agent.Common.Text.starts_with
    shadownet_agent.Common.Text.ends_with shadownet_agent.Common.Text.strip_suffix?
    shadownet_agent.Common.Text.split shadownet_agent.Common.Text.split_from
    shadownet_agent.Common.Text.join shadownet_agent.Common.Text.strip_md
    shadownet_agent.Common.Text.is_md shadownet_agent.Common.Text.trim
    shadownet_agent.Common.Text.trim_start shadownet_agent.Common.Text.trim_end
    shadownet_agent.Common.Text.is_space shadownet_agent.Common.Text.is_line_end
    shadownet_agent.Common.Text.unix_lines shadownet_agent.Common.Text.lines_of
    shadownet_agent.Common.span shadownet_agent.Common.Sort.sort
get_doc_by_slug_lem_example = get_doc_by_slug_lem ascii collate docs_tree (home ∷ []) [] set_up refl

abbrev pub content_tree : Entries
content_tree =
    directory (txt "en") (directory (txt "blog") (file (txt "post.md") (txt "# Hi") end) end) end

abbrev pub post : ContentEntry
post = record {
  type = blog;
  lang = en;
  doc = record { slug = txt "post" ∷ []; file_path = txt "post.md" ∷ []; title = txt "Hi" };
}

abbrev base : Text
base = txt "http://127.0.0.1:8080"

-- A runtime that answers without a body.
abbrev empty_answer : Fetch
empty_answer url =
    some (record { status = 204; content_type = none; has_body = false; text = some [] })

proxy-IsSent_example :
    IsSent (proxy_get base empty_answer (txt "/api/state"))
    × IsSent (events_route base empty_answer)
proxy-IsSent_example = proxy-IsSent base (txt "/api/state") empty_answer
