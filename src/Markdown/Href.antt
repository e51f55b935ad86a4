-- ===== src/Markdown/Href.antt =====
-- resolveHref of website/src/lib/docs/markdown.tsx: links between the Markdown files become links
-- between pages.
pub mod Confined
use shadownet_agent.Common.{
  ℕ, Bool, true, false, ◌||◌, Option, none, some, List, [], ◌∷◌, ◌++◌, reverse, ◌==◌, is_empty, map,
  if◌then◌else◌, span, drop,
}
use shadownet_agent.Common.Text.{
  Text, txt, same, starts_with, ends_with, strip_suffix?, trim, split, join, strip_md, Unicode,
}

-- `(s.split("#")[0], "#" + the rest of the parts joined)`; the second is "" without a "#".
unfoldable pub split_hash : Text → Text × Text
split_hash s = elim (split b'#' s) [
  | [] ↦ (s, [])
  | first ∷ [] ↦ (first, [])
  | first ∷ second ∷ more ↦ (first, txt "#" ++ join (txt "#") (second ∷ more))
]

-- `rel.replace(/\\/g, "/")`
unfoldable pub forward_slash : ℕ → ℕ
forward_slash c = if c == 0x5c then b'/' else c

-- `array.pop()` on a stack that has its top at the head.
abbrev pop : List Text → List Text
pop [] = []
pop (x ∷ acc) = acc

-- One round of the reduction over the segments; `acc` has its last segment at the head.
unfoldable pub segment : List Text → Text → List Text
segment acc seg =
    if same seg (txt ".") || same seg (txt "")
    then acc
    else if same seg (txt "..")
    then pop acc
    else seg ∷ acc

unfoldable pub segments_from : List Text → List Text → List Text
segments_from acc [] = reverse acc
segments_from acc (seg ∷ segs) = segments_from (segment acc seg) segs

unfoldable pub segments : List Text → List Text
segments parts = segments_from [] parts

abbrev drop_last : List Text → List Text
drop_last [] = []
drop_last (x ∷ []) = []
drop_last (x ∷ y ∷ xs) = x ∷ drop_last (y ∷ xs)

-- `${baseDir ? `${baseDir}/` : ""}${rel}`, cut at the slashes.
unfoldable pub joined_segments : List Text → Text → List Text
joined_segments base_slug rel =
    let base_dir = join (txt "/") (drop_last base_slug) in
    segments (
      split b'/' ((if is_empty base_dir then [] else base_dir ++ txt "/") ++ map forward_slash rel))

-- `text?.trim() ? text : fallback`
unfoldable pub or_blank : Option Text → Text → Text
or_blank none fallback = fallback
or_blank (some t) fallback = if is_empty (trim t) then fallback else t

-- /^\/+/ removed.
unfoldable pub strip_slashes : Text → Text
strip_slashes s = (span (λ c. c == b'/') s).1

-- `routeBase?.trim() ? routeBase.trim().replace(/^\/+/, "") : "docs"`
unfoldable pub route_base : Option Text → Text
route_base none = txt "docs"
route_base (some t) = if is_empty (trim t) then txt "docs" else strip_slashes (trim t)

-- The parameters of a page: its slug, the language prefix, and the section.
pub record Page : Type 0 where
  pub base_slug : List Text
  pub base_prefix : Option Text
  pub route : Option Text

-- The three ways to write a page's address, by its path without extension.
unfoldable pub page_address : Text → Text → Text → Text → Text
page_address prefix base without_ext hash =
    if same without_ext (txt "index")
    then prefix ++ (txt "/" ++ (base ++ hash))
    else elim (strip_suffix? (txt "/index") without_ext) [
      | none ↦ prefix ++ (txt "/" ++ (base ++ (txt "/" ++ (without_ext ++ hash))))
      | some dir ↦ prefix ++ (txt "/" ++ (base ++ (txt "/" ++ (dir ++ hash))))
    ]

-- The targets that are left alone: web addresses, anchors and absolute paths.
unfoldable pub is_external : Text → Bool
is_external t =
    starts_with t (txt "http://")
    || starts_with t (txt "https://")
    || starts_with t (txt "#")
    || starts_with t (txt "/")

unfoldable pub resolve_href : Unicode → Page → Text → Text
resolve_href u page href =
    let trimmed = trim href in
    if is_external trimmed
    then trimmed
    else let (without_hash, hash) = split_hash trimmed in
      if ends_with (u.to_lower without_hash) (txt ".md")
      then page_address (or_blank page.base_prefix []) (route_base page.route)
          (strip_md (join (txt "/") (joined_segments page.base_slug without_hash))) hash
      else trimmed
