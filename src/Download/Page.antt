-- ===== src/Download/Page.antt =====
-- The state of website/src/components/DownloadSection.tsx: the role, the platform and the release that are chosen,
-- and what the page shows for them.
pub mod Chosen
use shadownet_agent.Common.{
  ℕ, Bool, true, false, ◌&&◌, Option, none, some, List, [], ◌∷◌, if◌then◌else◌,
}
use shadownet_agent.Common.Text.{Text, txt}
use shadownet_agent.Download.Choice.{
  PlatformKey, unknown, selected_release, effective_platform, recommended_artifact,
}
use shadownet_agent.Download.Grid.{format_date}
use shadownet_agent.Download.Steps.{is_present}
use shadownet_agent.Releases.Listing.{LocalRelease, ReleaseArtifact}
use shadownet_agent.Releases.Names.{Role, inside}

pub record DownloadPage : Type 0 where
  pub role : Role
  pub manual_platform : PlatformKey
  pub selected_tag : Text

-- `releases[0]?.tag ?? ""`
unfoldable pub first_tag : List LocalRelease → Text
first_tag [] = []
first_tag (r ∷ rs) = r.tag

unfoldable pub opened_page : List LocalRelease → DownloadPage
opened_page releases = record {
  role = inside;
  manual_platform = PlatformKey.unknown;
  selected_tag = first_tag releases;
}

-- The two tabs, the choice of a platform (in the list or the grid), and that of a release.
unfoldable pub set_role : Role → DownloadPage → DownloadPage
set_role role p = record p { role = role }

unfoldable pub set_manual_platform : PlatformKey → DownloadPage → DownloadPage
set_manual_platform platform p = record p { manual_platform = platform }

unfoldable pub set_selected_tag : Text → DownloadPage → DownloadPage
set_selected_tag tag p = record p { selected_tag = tag }

-- selectedRelease and recommendedArtifact; `auto` is autoPlatform.
unfoldable pub page_release : List LocalRelease → DownloadPage → Option LocalRelease
page_release releases p = selected_release releases p.selected_tag

unfoldable pub page_artifact :
    List LocalRelease → PlatformKey → DownloadPage → Option ReleaseArtifact
page_artifact releases auto p =
    recommended_artifact (page_release releases p) (effective_platform p.manual_platform auto)
      p.role

-- hasChecksum
unfoldable pub has_checksum : Option ReleaseArtifact → Bool
has_checksum none = false
has_checksum (some a) = is_present a.sha256 && is_present a.sha256_href

-- createdAt
unfoldable pub created_at : (ℕ → Option Text) → Option LocalRelease → Text
created_at iso_date none = txt "n/a"
created_at iso_date (some r) = elim (format_date iso_date r.created_at_unix) [
  | none ↦ txt "n/a"
  | some date ↦ date
]

-- The three texts of recommendedHeading, in either language.
pub data Heading : Type 0 where
  manual uncertain plain : Heading

unfoldable pub recommended_heading : Bool → PlatformKey → Heading
recommended_heading false auto = manual
recommended_heading true PlatformKey.unknown = uncertain
recommended_heading true _ = plain
