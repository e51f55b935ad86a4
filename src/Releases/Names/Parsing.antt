-- ===== src/Releases/Names/Parsing.antt =====
-- parseRoleAndTarget of website/src/lib/releases/local.ts reads back the names that the release
-- scripts give to artifacts.
use shadownet_agent.Common.{◌++◌}
use shadownet_agent.Common.Text.{Text, txt}
use shadownet_agent.Releases.Names.{Role, role_name}

pub data Brand : Type 0 where
  sunlionet shadownet : Brand

abbrev pub brand_prefix : Brand → Text
brand_prefix sunlionet = txt "sunlionet-"
brand_prefix shadownet = txt "shadownet-"

-- The name of an artifact of a release: brand, role, tag, target, extension.
abbrev pub artifact_name : Brand → Role → Text → Text → Text → Text
artifact_name brand role tag target ext =
    brand_prefix brand ++ ((role_name role ++ txt "-") ++ ((tag ++ txt "-") ++ (target ++ ext)))
