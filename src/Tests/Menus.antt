-- ===== src/Tests/Menus.antt =====
-- Examples for the grid of the download page, the copy buttons and the navigation at the head of each page.
use shadownet_agent.Common.Text.{Text, txt}
use shadownet_agent.Common.{ℕ, ◌≡◌, ◌⊎◌, refl, Option, some, none, [], ◌∷◌, ◌++◌, All}
use shadownet_agent.Copying.{Copying, fresh, written, waited, donation_delay}
use shadownet_agent.Download.Choice.{
  linux_amd64, raspberrypi_arm64, recommended_artifact, effective_platform,
}
use shadownet_agent.Download.Grid.{
  PlatformChoice, platform_choices, grid_artifact, grid-recommended,
}
use shadownet_agent.Links.Header.Switch.{other_lang_href_lem}
use shadownet_agent.Links.Header.{normalized_path, other_lang, other_lang_href}
use shadownet_agent.Links.{get_ui_lang_from_pathname}
use shadownet_agent.Releases.Listing.{LocalRelease}
use shadownet_agent.Releases.Names.{inside, outside, tar_gz}
use shadownet_agent.Tests.Releases.{program}

-- A release with one program.
abbrev release : LocalRelease
release = record {
  tag = txt "v0.9.1";
  build_ref = none;
  created_at_unix = none;
  artifacts =
      record {
        file_name = program;
        href = txt "/downloads/v0.9.1/" ++ program;
        size_bytes = 1000;
        kind = tar_gz;
        sha256 = none;
        sha256_href = none;
        role = some inside;
        target = some (txt "linux-amd64");
      }
      ∷ [];
  verification = record {
    checksums_href = none;
    signature_href = none;
    key_href = none;
    key_fingerprint = none;
    key_fingerprint_href = none;
  };
}

grid-recommended_example :
    All
      (λ (p : PlatformChoice).
        grid_artifact (some release) inside p
        ≡ recommended_artifact (some release) (effective_platform p.key linux_amd64) inside)
      platform_choices
    × All
        (λ (p : PlatformChoice).
          (grid_artifact (some release) outside p
            ≡ recommended_artifact (some release) (effective_platform p.key linux_amd64) outside)
          ⊎ ((p.key ≡ raspberrypi_arm64)
              × (grid_artifact (some release) outside p ≡ grid_artifact (some release) inside p)))
        platform_choices
grid-recommended_example = grid-recommended release linux_amd64

other_lang_href_lem_example :
    (get_ui_lang_from_pathname (some (other_lang_href (some (txt "/en/docs"))))
      ≡ other_lang (get_ui_lang_from_pathname (some (txt "/en/docs"))))
    × (normalized_path (some (other_lang_href (some (txt "/en/docs"))))
        ≡ normalized_path (some (txt "/en/docs")))
unfolding shadownet_agent.Common.Text.starts_with txt
other_lang_href_lem_example = other_lang_href_lem (txt "/en/docs") refl

abbrev last_copied : Option (Text × ℕ)
last_copied = some (txt "XMR", 1000)

-- An address is copied, and half a second passes.
abbrev half_second_later : Copying Text
half_second_later = waited 500 (written donation_delay (txt "XMR") (fresh Text 1000))
