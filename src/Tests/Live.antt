-- ===== src/Tests/Live.antt =====
-- Examples for the feed of the dashboard.
use shadownet_agent.Common.Text.{txt}
use shadownet_agent.Common.{◌≡◌, refl, true, false, none, some, ◌==◌, if◌then◌else◌}
use shadownet_agent.Dashboard.Live.Events.{answered, stream_error, step, mounted, start, next}
use shadownet_agent.Dashboard.Live.Feed.Alive.{IsAlive, Reach-IsAlive}
use shadownet_agent.Dashboard.Live.Feed.Refined.{step-Next}
use shadownet_agent.Dashboard.Live.Feed.{Next, spec_of}
use shadownet_agent.Dashboard.Live.NoLeak.{Reach-NoLeak}
use shadownet_agent.Dashboard.Live.Held.{NoLeak}
use shadownet_agent.Dashboard.Live.Settling.{commit-is_settled}
use shadownet_agent.Dashboard.Live.Threshold.{answered-snapshot}
use shadownet_agent.Dashboard.Live.{Config, Live, LiveMode, Request, Handle, is_settled, commit}
use shadownet_agent.Dashboard.Map.{Explorer, opened, hover, click, set_snapshot}
use shadownet_agent.Tests.{ascii}
use shadownet_agent.Dashboard.Types.{DashboardView}
use shadownet_agent.Tests.Dashboard.{snapshot}

-- Snapshots can be polled, or streamed.
abbrev polling : Config
polling = record {
  can_use_stream = false;
  can_use_snapshot_url = true;
  stream_opens = λ v t. false;
}

abbrev streaming : Config
streaming = record {
  can_use_stream = true;
  can_use_snapshot_url = true;
  stream_opens = λ v t. true;
}

abbrev mounted_polling : Live
mounted_polling = commit polling (mounted DashboardView.global)

abbrev mounted_streaming : Live
mounted_streaming = commit streaming (mounted DashboardView.global)

abbrev first_request : Request
first_request = record {
  id = 1;
  view = DashboardView.global;
  threshold = 20;
  reason = txt "polling";
  aborted = false;
}

commit-is_settled_example : is_settled (commit polling (mounted DashboardView.global)) ≡ true
commit-is_settled_example = commit-is_settled polling (mounted DashboardView.global)

Reach-NoLeak_example : NoLeak (step polling (answered 1 (snapshot 50)) mounted_polling)
Reach-NoLeak_example =
    Reach-NoLeak polling (step polling (answered 1 (snapshot 50)) mounted_polling)
      (next (answered 1 (snapshot 50)) (start DashboardView.global))

-- A feed with another threshold is not shown.
answered-snapshot_example :
    (step polling (answered 1 (snapshot 50)) mounted_polling).snapshot
    ≡ (if (snapshot 50).privacy_threshold == 20 then some (snapshot 50) else none)
unfolding commit shadownet_agent.Dashboard.Live.commit_fuel is_settled
    shadownet_agent.Dashboard.Live.run_effect shadownet_agent.Dashboard.Live.same_view
    shadownet_agent.Dashboard.Live.effect shadownet_agent.Dashboard.Live.start_mode
    shadownet_agent.Dashboard.Live.start_auto shadownet_agent.Dashboard.Live.start_poll
    shadownet_agent.Dashboard.Live.set_interval shadownet_agent.Dashboard.Live.load_once
    shadownet_agent.Dashboard.Live.stop_all shadownet_agent.Dashboard.Live.same_mode
answered-snapshot_example =
    answered-snapshot polling mounted_polling 1 first_request (snapshot 50)
      (start DashboardView.global) refl

-- The stream of the mounted dashboard breaks.
step-Next_example :
    Next streaming
      (stream_error 1)
      (spec_of mounted_streaming)
      (spec_of (step streaming (stream_error 1) mounted_streaming))
step-Next_example =
    step-Next streaming (stream_error 1) mounted_streaming (start DashboardView.global)

Reach-IsAlive_example :
    IsAlive streaming (spec_of (step streaming (stream_error 1) mounted_streaming))
Reach-IsAlive_example =
    Reach-IsAlive streaming (step streaming (stream_error 1) mounted_streaming)
      (next (stream_error 1) (start DashboardView.global))

-- A snapshot comes, and the pointer moves over a region, which is clicked.
abbrev answered_live : Live
answered_live = step polling (answered 1 (snapshot 20)) mounted_polling

abbrev explored : Explorer
explored = click ascii (some (txt "Malta")) (
    hover ascii (some (txt "Malta")) 3 4
      (set_snapshot answered_live.snapshot (set_snapshot mounted_polling.snapshot opened)))
