-- ===== src/Links.antt =====
-- The language of a page and its links: website/src/lib/uiCopy.ts and
-- website/src/components/LocalizedLink.tsx.
pub mod Language
pub mod Header
use shadownet_agent.Common.{
  Bool, true, false, ◌&&◌, ◌||◌, Option, none, some, List, [], ◌∷◌, ◌++◌, if◌then◌else◌, is_empty,
}
use shadownet_agent.Common.Text.{Text, txt, same, starts_with}

pub data UiLang : Type 0 where
  en fa : UiLang

-- resolveUILang
unfoldable pub resolve_ui_lang : Option Text → UiLang
resolve_ui_lang none = en
resolve_ui_lang (some lang) = if same lang (txt "fa") then fa else en

-- `pathname === prefix || pathname.startsWith(prefix + "/")`
unfoldable pub is_under : Text → Text → Bool
is_under prefix pathname = same pathname prefix || starts_with pathname (prefix ++ txt "/")

-- getUILangFromPathname; an empty path is under no prefix.
unfoldable pub get_ui_lang_from_pathname : Option Text → UiLang
get_ui_lang_from_pathname none = en
get_ui_lang_from_pathname (some pathname) = if is_under (txt "/fa") pathname then fa else en

-- getLangPrefix of LocalizedLink
unfoldable pub get_lang_prefix : Option Text → Text
get_lang_prefix none = []
get_lang_prefix (some pathname) =
    if is_under (txt "/fa") pathname
    then txt "/fa"
    else if is_under (txt "/en") pathname
    then txt "/en"
    else []

-- resolvedHref of LocalizedLink
unfoldable pub resolved_href : Text → Text → Text
resolved_href prefix href = elim (starts_with href (txt "/")) [
  | false ↦ href
  | true ↦ elim (is_empty prefix) [
    | true ↦ href
    | false ↦ elim (same href (txt "/")) [
      | true ↦ prefix
      | false ↦ elim (is_under prefix href) [ true ↦ href | false ↦ prefix ++ href ]
    ]
  ]
]
