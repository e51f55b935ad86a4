-- ===== src/Tests.antt =====
-- Runs of the models on concrete inputs.
mod Markdown
pub mod Dashboard
mod Live
pub mod Releases
mod Site
pub mod Files
mod Pages
mod Map
mod Menus
use shadownet_agent.Common.{
  ◌-◌, ℕ, ◌+◌, Bool, ◌&&◌, ◌||◌, Option, none, some, List, [], ◌∷◌, map, leb, if◌then◌else◌,
}
use shadownet_agent.Common.Text.{Text, txt, Unicode}
use shadownet_agent.Markdown.Href.{Page}

-- Case mapping of ASCII.
abbrev pub lower : Text → Text
lower = map (λ c. if leb b'A' c && leb c b'Z' then c + 32 else c)

abbrev pub ascii : Unicode
ascii = record {
  to_lower = lower;
  nfkd = λ t. t;
  is_letter_or_number =
      λ c. (leb b'a' c && leb c b'z') || (leb b'A' c && leb c b'Z') || (leb b'0' c && leb c b'9');
}
