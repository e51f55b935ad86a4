-- ===== src/Links/Header.antt =====
-- The navigation at the head of each page: website/src/components/SiteHeader.tsx.
pub mod Switch
use shadownet_agent.Common.{
  Bool, true, false, not, ◌&&◌, Option, none, some, List, [], ◌∷◌, ◌++◌, if◌then◌else◌, is_empty,
  drop, length, find,
}
use shadownet_agent.Common.Text.{Text, txt, same}
use shadownet_agent.Links.{UiLang, en, fa, is_under, get_ui_lang_from_pathname}

pub record NavLink : Type 0 where
  pub href : Text
  pub key : Text

abbrev page_link : Text → NavLink
page_link name = record { href = txt "/" ++ name; key = name }

-- navItems
abbrev pub nav_items : List NavLink
nav_items =
    record { href = txt "/"; key = txt "home" }
    ∷ page_link (txt "manifest")
    ∷ page_link (txt "technology")
    ∷ page_link (txt "security")
    ∷ page_link (txt "docs")
    ∷ page_link (txt "blog")
    ∷ page_link (txt "updates")
    ∷ page_link (txt "download")
    ∷ page_link (txt "architecture")
    ∷ page_link (txt "dashboard")
    ∷ page_link (txt "roadmap")
    ∷ page_link (txt "community")
    ∷ page_link (txt "support")
    ∷ []

-- `/^\/(fa|en)(\/|$)/`: the path is the prefix or goes on with a slash.
unfoldable pub lang_match : Text → Text
lang_match pathname =
    if is_under (txt "/fa") pathname
    then txt "/fa"
    else if is_under (txt "/en") pathname
    then txt "/en"
    else []

-- basePrefix; the empty path does not match.
unfoldable pub base_prefix : Option Text → Text
base_prefix none = []
base_prefix (some pathname) = lang_match pathname

abbrev pub or_root : Text → Text
or_root rest = if is_empty rest then txt "/" else rest

-- normalizedPath
unfoldable pub normalized_path : Option Text → Text
normalized_path none = txt "/"
normalized_path (some pathname) =
    if is_empty pathname
    then txt "/"
    else if is_empty (lang_match pathname)
    then pathname
    else or_root (drop (length (lang_match pathname)) pathname)

abbrev is_item_of : Text → NavLink → Bool
is_item_of path item = not (same item.href (txt "/")) && is_under item.href path

-- activeHref, of a normalized path, which is not empty.
unfoldable pub active_href : Text → Text
active_href path =
    if same path (txt "/")
    then txt "/"
    else elim (find (is_item_of path) nav_items) [ none ↦ txt "/" | some item ↦ item.href ]

-- hrefFor
unfoldable pub href_for : Text → Text → Text
href_for base href =
    if is_empty base then href else base ++ (if same href (txt "/") then [] else href)

-- homeHref
unfoldable pub home_href : Text → Text
home_href base = or_root base

abbrev pub other_lang : UiLang → UiLang
other_lang fa = en
other_lang en = fa

abbrev pub lang_prefix : UiLang → Text
lang_prefix en = txt "/en"
lang_prefix fa = txt "/fa"

-- otherLangHref
unfoldable pub other_lang_href : Option Text → Text
other_lang_href pathname =
    let path = normalized_path pathname in
    lang_prefix (other_lang (get_ui_lang_from_pathname pathname))
    ++ (if same path (txt "/") then [] else path)

-- The menu of small screens.
unfoldable pub menu_button : Bool → Bool
menu_button is_open = not is_open

unfoldable pub menu_link : Bool → Bool
menu_link is_open = false
