-- ===== src/Tests/Map.antt =====
-- Examples for the map of the dashboard.
use shadownet_agent.Common.Dict.{get}
use shadownet_agent.Common.Text.{txt}
use shadownet_agent.Common.{◌≡◌, refl, true, some, none}
use shadownet_agent.Dashboard.Map.Guarded.{get_region-filtered}
use shadownet_agent.Dashboard.Map.{Explorer, opened, hover, click, set_snapshot, get_region}
use shadownet_agent.Dashboard.Panels.{build_region_index}
use shadownet_agent.Dashboard.Privacy.{public_options, apply_privacy_filter}
use shadownet_agent.Tests.Dashboard.{snapshot}
use shadownet_agent.Tests.{ascii}

get_region-filtered_example :
    get_region ascii
      (apply_privacy_filter (snapshot 20) (public_options none none))
      true
      (some (txt "Malta"))
    ≡ get (ascii.to_lower (txt "Malta")) (
        build_region_index ascii
          (apply_privacy_filter (snapshot 20) (public_options none none)).regions)
unfolding txt
get_region-filtered_example =
    get_region-filtered ascii (snapshot 20) none none true (txt "Malta") refl

-- The pointer moves over a region, which is clicked.
abbrev explored : Explorer
explored =
    click ascii (some (txt "Malta"))
      (hover ascii (some (txt "Malta")) 3 4 (set_snapshot (some (snapshot 20)) opened))
