-- ===== src/Download/Page/Chosen.antt =====
-- What the page of website/src/components/DownloadSection.tsx recommends, whatever is chosen on it.
use shadownet_agent.Common.{◌≡◌, ◌⊎◌, List, [], ◌∷◌, ◌++◌}
use shadownet_agent.Common.Text.{Text}
use shadownet_agent.Download.Choice.{PlatformKey}
use shadownet_agent.Download.Page.{
  DownloadPage, opened_page, set_role, set_manual_platform, set_selected_tag,
}
use shadownet_agent.Releases.Listing.{LocalRelease}
use shadownet_agent.Releases.Names.{Role}

-- The states of the page; a release is chosen from the list of the releases.
pub data Chosen (releases : List LocalRelease) : DownloadPage → Type 0 where
  untouched : Chosen releases (opened_page releases)
  by_role : {p : DownloadPage} (role : Role) → Chosen releases p → Chosen releases (set_role role p)
  by_platform :
      {p : DownloadPage} (platform : PlatformKey)
      → Chosen releases p
      → Chosen releases (set_manual_platform platform p)
  by_release :
      {p : DownloadPage} (before after : List LocalRelease) (r : LocalRelease)
      → releases ≡ before ++ r ∷ after
      → Chosen releases p
      → Chosen releases (set_selected_tag r.tag p)

-- There are no releases, or one has the tag.
abbrev IsListed : List LocalRelease → Text → Type 0
IsListed releases tag =
    (releases ≡ [])
    ⊎ ((before : List LocalRelease) × (after : List LocalRelease) × (r : LocalRelease) × (releases
          ≡ before ++ r ∷ after)
        × (r.tag ≡ tag))

abbrev AnyRelease : LocalRelease → Type 0
AnyRelease r = Unit
