-- ===== src/Theme.antt =====
-- The theme of the page: website/src/components/ThemeToggle.tsx and
-- ThemeInitScript.tsx.
use shadownet_agent.Common.Text.{Text, txt, same}
use shadownet_agent.Common.{Bool, true, false, not, Option, none, some, if◌then◌else◌}

pub data Theme : Type 0 where
  light dark : Theme

abbrev pub is_dark : Theme → Bool
is_dark dark = true
is_dark light = false

abbrev pub theme_name : Theme → Text
theme_name light = txt "light"
theme_name dark = txt "dark"

-- The two classes of the document's element and the entry "theme" of the local storage.
pub record Page : Type 0 where
  pub has_dark : Bool
  pub has_light : Bool
  pub stored : Option Text

-- The page and the state of ThemeToggle; its `nextTheme` is computed from `theme`.
pub record State : Type 0 where
  pub page : Page
  pub theme : Theme

-- getCurrentTheme, of the document if there is one.
unfoldable pub get_current_theme : Option Page → Theme
get_current_theme none = dark
get_current_theme (some page) = if page.has_dark then dark else light

-- setTheme; the Boolean tells whether `setItem` succeeds, and what it throws is dropped.
unfoldable pub set_theme : Bool → Theme → Page → Page
set_theme can_store theme page = record {
  has_dark = is_dark theme;
  has_light = not (is_dark theme);
  stored = if can_store then some (theme_name theme) else page.stored;
}

abbrev pub next_theme : Theme → Theme
next_theme dark = light
next_theme light = dark

unfoldable pub mounted : Page → State
mounted page = record { page = page; theme = get_current_theme (some page) }

unfoldable pub clicked : Bool → State → State
clicked can_store s = record {
  page = set_theme can_store (next_theme s.theme) s.page;
  theme = next_theme s.theme;
}

abbrev pub shown_theme : Bool → Theme
shown_theme true = dark
shown_theme false = light

-- The theme that the script of ThemeInitScript chooses from what `getItem` gives.
unfoldable pub stored_theme : Option Text → Bool → Theme
stored_theme none prefers_dark = shown_theme prefers_dark
stored_theme (some name) prefers_dark =
    if same name (txt "light")
    then light
    else if same name (txt "dark")
    then dark
    else shown_theme prefers_dark

-- The script, which runs before the page is shown: `none` where `getItem` throws, and whether the system
-- prefers dark.
unfoldable pub init_page : Option (Option Text) → Bool → Page → Page
init_page none prefers_dark page = page
init_page (some item) prefers_dark page = record page {
  has_dark = is_dark (stored_theme item prefers_dark);
  has_light = not (is_dark (stored_theme item prefers_dark));
}

abbrev pub reloaded : Bool → Page → Page → State
reloaded prefers_dark old new =
    mounted (init_page (some old.stored) prefers_dark (record new { stored = old.stored }))
