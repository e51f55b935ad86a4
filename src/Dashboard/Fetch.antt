-- ===== src/Dashboard/Fetch.antt =====
-- Fetching a snapshot: website/src/lib/dashboard/fetch-dashboard-data.ts.
use mathlib.Core.Option.{some_inj}
use shadownet_agent.Common.Dict.{Dict, get, set, has, get-set}
use shadownet_agent.Common.Text.{Text, txt, same, starts_with, includes, decimal}
use shadownet_agent.Common.Text.Laws.{same_refl}
use shadownet_agent.Common.{
  ℕ, zero, suc, ◌+◌, ◌-◌, ◌≤◌, ◌≡◌, refl, sym, ap, subst, ◌∙◌, arith, Bool, true, false, not, ◌&&◌,
  Option, none, some, List, [], ◌∷◌, ◌++◌, ◌==◌, leb, if◌then◌else◌, is_empty, length, Bool-cases,
  leb→le, Option-cases, inl, inr, none_absurd,
}
use shadownet_agent.Dashboard.Types.{DashboardView}
pub mod Accepted

-- A JSON value; the elements of arrays and the fields of objects are lists of values.
mutual
  pub data Json : Type 0 where
    null : Json
    bool : Bool → Json
    num : ℕ → Json
    str : Text → Json
    arr : Fields → Json
    obj : Fields → Json

  pub data Fields : Type 0 where
    end : Fields
    field : Text → Json → Fields → Fields

-- `x[name]`, undefined being `null` here: no test below tells them apart.
unfoldable pub field_of : Text → Fields → Json
field_of name end = null
field_of name (field n v more) = let rest = field_of name more in if same n name then v else rest

unfoldable pub is_truthy : Json → Bool
is_truthy null = false
is_truthy (bool b) = b
is_truthy (num n) = not (n == 0)
is_truthy (str s) = not (is_empty s)
is_truthy _ = true

abbrev pub is_array : Json → Bool
is_array (arr items) = true
is_array _ = false

abbrev pub is_one : Json → Bool
is_one (num n) = n == 1
is_one _ = false

-- shallowValidateSnapshot; an array is an object without these fields.
unfoldable pub shallow_validate_snapshot : Json → Bool
shallow_validate_snapshot (obj x) =
    is_one (field_of (txt "version") x)
    && is_truthy (field_of (txt "view") x)
    && is_array (field_of (txt "regions") x)
    && is_array (field_of (txt "protocols") x)
    && is_array (field_of (txt "helperNodes") x)
    && is_array (field_of (txt "flows") x)
    && is_array (field_of (txt "activity") x)
shallow_validate_snapshot _ = false

abbrev pub view_name : DashboardView → Text
view_name DashboardView.global = txt "global"
view_name DashboardView.iran = txt "iran"
view_name DashboardView.protocols = txt "protocols"
view_name DashboardView.releases = txt "releases"

-- `base.replaceAll("{view}", view)`; `skip` is what is left of a match.
unfoldable pub replace_view : Text → ℕ → Text → Text
replace_view view skip [] = []
replace_view view (suc n) (c ∷ s) = replace_view view n s
replace_view view zero (c ∷ s) =
    let matched = replace_view view 5 s in
    let kept = replace_view view 0 s in
    if starts_with (c ∷ s) (txt "{view}") then view ++ matched else c ∷ kept

-- An address with its query, as `new URL` takes it apart.
pub record Url : Type 0 where
  pub address : Text
  pub search_params : Dict Text

pub record Response : Type 0 where
  pub status : ℕ
  pub json : Option Json

-- What the browser gives: `new URL`, relative to the page's origin unless the text starts with
-- "http", and `fetch`; `none` where they throw, with the messages of what they throw.
pub record Web : Type 0 where
  pub parse_url : Text → Bool → Option Url
  pub fetch : Url → Option Response
  pub url_error : Text
  pub fetch_error : Text
  pub json_error : Text

-- `if (!has(key)) set(key, value)`
unfoldable pub set_default : Text → Text → Dict Text → Dict Text
set_default key value params = if has key params then params else set key value params

-- buildDashboardUrl of a base that is not empty; `none` where it throws.
unfoldable pub build_dashboard_url : Web → Text → DashboardView → ℕ → Option Url
build_dashboard_url web base view privacy_threshold =
    let replaced = replace_view (view_name view) 0 base in
    elim (web.parse_url replaced (not (starts_with replaced (txt "http")))) [
      | none ↦ none
      | some url ↦ some (record url {
        search_params =
            set_default (txt "privacyThreshold") (decimal privacy_threshold)
              (set_default (txt "view") (view_name view) url.search_params);
      })
    ]

pub data Fetched : Type 0 where
  failed : Text → Fetched
  fetched : Json → Fetched

unfoldable pub check_response : Web → Response → Fetched
check_response web res = elim (leb 200 res.status && leb res.status 299) [
  | false ↦ failed (txt "snapshot fetch failed: " ++ decimal res.status)
  | true ↦ elim res.json [
    | none ↦ failed web.json_error
    | some json ↦ elim (shallow_validate_snapshot json) [
      | false ↦ failed (txt "snapshot schema mismatch")
      | true ↦ fetched json
    ]
  ]
]

-- fetchDashboardSnapshot
unfoldable pub fetch_dashboard_snapshot : Web → Text → DashboardView → ℕ → Fetched
fetch_dashboard_snapshot web base view privacy_threshold = elim (is_empty base) [
  | true ↦ failed (txt "snapshot url not configured")
  | false ↦ elim (build_dashboard_url web base view privacy_threshold) [
    | none ↦ failed web.url_error
    | some url ↦ elim (web.fetch url) [
      | none ↦ failed web.fetch_error
      | some res ↦ check_response web res
    ]
  ]
]

-- The listener of connectDashboardStream, of what `JSON.parse` makes of a message (`none` where it
-- throws): the snapshot that is passed on, if any.
unfoldable pub on_stream_snapshot : Option Json → Option Json
on_stream_snapshot none = none
on_stream_snapshot (some json) = if shallow_validate_snapshot json then some json else none

-- connectDashboardStream: the address at which the event source is opened, `none` in it being the page's own,
-- which an empty address leads to; `none` where it throws. `opens` tells whether `new EventSource` succeeds.
unfoldable pub connect_dashboard_stream :
    Web → (Option Url → Bool) → Text → DashboardView → ℕ → Option (Option Url)
connect_dashboard_stream web opens base view privacy_threshold =
    let at = λ (url : Option Url). if opens url then some url else none in
    elim (is_empty base) [
      | true ↦ at none
      | false ↦ elim (build_dashboard_url web base view privacy_threshold) [
        | none ↦ none
        | some url ↦ at (some url)
      ]
    ]
