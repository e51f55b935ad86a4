-- ===== src/Tests/Site.antt =====
-- Examples for the download page, the runtime's events and the links of the site.
use shadownet_agent.Common.Int.{pos}
use shadownet_agent.Common.Sort.{IsSorted}
use shadownet_agent.Common.Text.{Text, txt, same}
use shadownet_agent.Common.{
  ℕ, suc, ◌+◌, ◌^◌, ◌≤◌, ◌<◌, ◌⊎◌, inl, inr, arith, Bool, true, false, Option, none, some, List, [],
  ◌∷◌, ◌++◌, length, All, is_empty, if◌then◌else◌,
}
use shadownet_agent.Download.Page.{DownloadPage, opened_page, set_manual_platform}
use shadownet_agent.Download.Choice.{linux_amd64}
use shadownet_agent.Releases.Listing.{
  Entry, Stat, Host, LocalRelease, ReleaseArtifact, Verification, get_local_releases,
}
use shadownet_agent.Releases.Names.{inside, tar_gz}
use shadownet_agent.Theme.{Page, State, light}
use shadownet_agent.Runtime.Dashboard.{
  received, call_back, opened, at_start, after, IsTidy, Shows-IsTidy,
}
use shadownet_agent.Runtime.Debug.Latest.{IsLatest, latest_by_type_lem}
use shadownet_agent.Runtime.Debug.{latest_by_type}
use shadownet_agent.Runtime.Events.{RuntimeEvent}
use shadownet_agent.Tests.Releases.{program}

-- The program as it is listed.
abbrev listed : ReleaseArtifact
listed = record {
  file_name = program;
  href = txt "/downloads/v0.9.1/sunlionet-inside-v0.9.1-linux-amd64.tar.gz";
  size_bytes = 1000;
  kind = tar_gz;
  sha256 = none;
  sha256_href = none;
  role = some inside;
  target = some (txt "linux-amd64");
}

abbrev no_files : Verification
no_files = record {
  checksums_href = none;
  signature_href = none;
  key_href = none;
  key_fingerprint = none;
  key_fingerprint_href = none;
}

abbrev release : LocalRelease
release = record {
  tag = txt "v0.9.1";
  build_ref = none;
  created_at_unix = none;
  artifacts = listed ∷ [];
  verification = no_files;
}

-- A host with this release alone.
abbrev small_readdir : Text → Option (List Entry)
small_readdir dir =
    if same dir (txt "/d")
    then some ((record { name = txt "v0.9.1"; is_file = false; is_directory = true }) ∷ [])
    else some ((record { name = program; is_file = true; is_directory = false }) ∷ [])

abbrev small_host : Host
small_host = record {
  readdir = small_readdir;
  read_file = λ p. none;
  stat = λ p. some (record { size = 1000; mtime_ms = 5000 });
  downloads_dir = txt "/d";
  join = λ dir name. dir ++ (txt "/" ++ name);
  collate = λ a b. pos 0;
}

-- Linux is chosen on the page.
abbrev linux_page : DownloadPage
linux_page = set_manual_platform linux_amd64 (opened_page (get_local_releases small_host))

abbrev start_event : RuntimeEvent ℕ
start_event = record {
  timestamp = 10;
  kind = txt "CONFIG";
  message = txt "loaded";
  metadata = none;
}

abbrev later_event : RuntimeEvent ℕ
later_event = record {
  timestamp = 12;
  kind = txt "CONNECTED";
  message = txt "ok";
  metadata = some 3;
}

latest_by_type_lem_example :
    IsLatest
      (λ t. t)
      (txt "CONFIG" ∷ txt "CONNECTED" ∷ [])
      (start_event ∷ later_event ∷ start_event ∷ [])
      (latest_by_type
        (λ t. t)
        (start_event ∷ later_event ∷ start_event ∷ [])
        (txt "CONFIG" ∷ txt "CONNECTED" ∷ []))
latest_by_type_lem_example =
    latest_by_type_lem (λ t. t) (txt "CONFIG" ∷ txt "CONNECTED" ∷ [])
      (start_event ∷ later_event ∷ start_event ∷ [])

Shows-IsTidy_example : IsTidy (call_back ℕ (received later_event) (opened ℕ)).events
Shows-IsTidy_example =
    Shows-IsTidy (call_back ℕ (received later_event) (opened ℕ))
      (after (received later_event) at_start)

abbrev light_page : Page
light_page = record { has_dark = false; has_light = true; stored = none }

abbrev light_state : State
light_state = record { page = light_page; theme = light }
