-- ===== src/Docs.antt =====
-- The Markdown files that the site shows: website/src/lib/docs/fs.ts and
-- website/src/lib/content/fs.ts, which share their functions up to names. A directory is the list
-- of its entries in the order of `readdir`; a path below the root is the list of its parts, as
-- `path.join` and `path.relative` take it apart on the servers' system.
pub mod Titles
pub mod Root
pub mod Lookup
pub mod Content
pub mod Pages
pub mod Navigation
pub mod Posts
use shadownet_agent.Common.Int.{ℤ, pos, lebℤ}
use shadownet_agent.Common.Sort.{sort}
use shadownet_agent.Common.Text.{
  Text, txt, same, starts_with, ends_with, split, join, strip_md, Unicode,
}
use shadownet_agent.Common.{
  ℕ, Bool, true, false, not, Option, none, some, List, [], ◌∷◌, ◌++◌, map, filter, find, is_empty,
  ◌==◌, if◌then◌else◌,
}
use Titles.{read_title}

pub data Entries : Type 0 where
  end : Entries
  file : Text → Text → Entries → Entries
  directory : Text → Entries → Entries → Entries
  other : Text → Entries → Entries

pub record DocEntry : Type 0 where
  pub slug : List Text
  pub file_path : List Text
  pub title : Text

unfoldable pub is_hidden : Text → Bool
is_hidden name = starts_with name (txt ".")

-- `rel.replace(/\\/g, "/").replace(/\.md$/i, "").split("/").filter(Boolean)`
unfoldable pub slug_of : List Text → List Text
slug_of path =
    filter (λ (part : Text). not (is_empty part))
      (split b'/' (strip_md (map (λ c. if c == b'\\' then b'/' else c) (join (txt "/") path))))

module _ (u : Unicode) where
  unfoldable pub is_markdown : Text → Bool
  is_markdown name = ends_with (u.to_lower name) (txt ".md")

  unfoldable pub entry_of : List Text → Text → Text → DocEntry
  entry_of dirs name contents = record {
    slug = slug_of (dirs ++ name ∷ []);
    file_path = dirs ++ name ∷ [];
    title = read_title name contents;
  }

  -- walk; `dirs` is the directory below the root.
  unfoldable pub walk : List Text → Entries → List DocEntry
  walk dirs end = []
  walk dirs (file name contents more) =
      let rest = walk dirs more in
      if is_hidden name
      then rest
      else if is_markdown name
      then entry_of dirs name contents ∷ rest
      else rest
  walk dirs (directory name entries more) =
      let rest = walk dirs more in
      let below = walk (dirs ++ name ∷ []) entries in if is_hidden name then rest else below ++ rest
  walk dirs (other name more) = walk dirs more

abbrev pub slug_key : List Text → Text
slug_key slug = join (txt "/") slug

-- `a.slug.join("/").localeCompare(b.slug.join("/")) <= 0`
abbrev pub entry_le : (Text → Text → ℤ) → DocEntry → DocEntry → Bool
entry_le collate a b = lebℤ (collate (slug_key a.slug) (slug_key b.slug)) (pos 0)

-- getDocsIndex
unfoldable pub get_docs_index : Unicode → (Text → Text → ℤ) → Entries → List DocEntry
get_docs_index u collate root = sort (entry_le collate) (walk u [] root)

-- getDocBySlug
unfoldable pub get_doc_by_slug : Unicode → (Text → Text → ℤ) → Entries → List Text → Option DocEntry
get_doc_by_slug u collate root slug =
    find (λ (e : DocEntry). same (slug_key e.slug) (slug_key slug)) (get_docs_index u collate root)

-- readDocMarkdownBySlug, where `read` is `readFile`: `none` where that throws, `some none` where there is
-- no such document.
unfoldable pub read_doc_markdown_by_slug :
    Unicode
    → (Text → Text → ℤ)
    → Entries
    → (List Text → Option Text)
    → List Text
    → Option (Option (DocEntry × Text))
read_doc_markdown_by_slug u collate root read slug = elim (get_doc_by_slug u collate root slug) [
  | none ↦ some none
  | some doc ↦ elim (read doc.file_path) [ none ↦ none | some raw ↦ some (some (doc, raw)) ]
]
