-- ===== src/Dashboard/Fetch/Accepted.antt =====
-- What fetchDashboardSnapshot hands on, in website/src/lib/dashboard/fetch-dashboard-data.ts.
use mathlib.Core.Option.{some_inj}
use shadownet_agent.Common.Dict.{Dict, set, has, get-set}
use shadownet_agent.Common.Text.{Text, txt, starts_with, decimal}
use shadownet_agent.Common.Text.Laws.{same_refl}
use shadownet_agent.Common.{
  ℕ, ◌≤◌, ◌≡◌, ap, subst, arith, true, false, not, ◌&&◌, Option, none, some, leb, is_empty,
  Bool-cases, Option-cases, inl, inr, none_absurd,
}
use shadownet_agent.Dashboard.Types.{DashboardView}
use shadownet_agent.Dashboard.Fetch.{
  Json, Fetched, Url, Response, Web, failed, fetched, view_name, replace_view, set_default,
  build_dashboard_url, shallow_validate_snapshot, check_response, fetch_dashboard_snapshot,
}

abbrev pub Present : Text → Dict Text → Type 0
Present key params = has key params ≡ true

set-Present : (key value : Text) (params : Dict Text) → Present key (set key value params)
set-Present key value params = ground (arith, get-set key key value params, same_refl key)

set-keeps :
    (key j value : Text) (params : Dict Text) → Present j params → Present j (set key value params)
set-keeps key j value params h = ground (arith, h, get-set key j value params)

set_default-Present :
    (key value : Text) (params : Dict Text) → Present key (set_default key value params)
unfolding set_default
set_default-Present key value params = ground (arith, set-Present key value params)

set_default-keeps :
    (key j value : Text) (params : Dict Text)
    → Present j params
    → Present j (set_default key value params)
unfolding set_default
set_default-keeps key j value params h = ground (arith, set-keeps key j value params h)

-- The address that is asked for a snapshot names a view and a threshold: those given in the base, or else
-- those of the page.
pub build_dashboard_url_lem :
    (web : Web) (base : Text) (view : DashboardView) (threshold : ℕ) (url : Url)
    → build_dashboard_url web base view threshold ≡ some url
    → Present (txt "view") url.search_params × Present (txt "privacyThreshold") url.search_params
unfolding build_dashboard_url
build_dashboard_url_lem web base view threshold url h =
    let replaced = replace_view (view_name view) 0 base in
    elim (Option-cases (web.parse_url replaced (not (starts_with replaced (txt "http"))))) [
      | inl k ↦ none_absurd (rw (k, build_dashboard_url) at h)
      | inr (u, k) ↦
          subst
            (λ (w : Url).
              Present (txt "view") w.search_params
              × Present (txt "privacyThreshold") w.search_params)
            (some_inj.0 (rw (k, build_dashboard_url) at h))
            (
              set_default-keeps (txt "privacyThreshold") (txt "view") (decimal threshold) _
                  (set_default-Present (txt "view") (view_name view) u.search_params),
              set_default-Present (txt "privacyThreshold") (decimal threshold) _,
            )
    ]

abbrev answer : Fetched → Option Json
answer (failed message) = none
answer (fetched json) = some json

-- What a good answer is: its status is one of success and its body is what is handed on, of the right shape.
abbrev pub IsGood : Json → Response → Type 0
IsGood json res =
    (200 ≤ res.status)
    × (res.status ≤ 299)
    × (res.json ≡ some json)
    × (shallow_validate_snapshot json ≡ true)

ok_bounds :
    (status : ℕ) → (leb 200 status && leb status 299) ≡ true → (200 ≤ status) × (status ≤ 299)
ok_bounds status h = (ground arith, ground arith)

check_response_lem :
    (web : Web) (res : Response) (json : Json)
    → check_response web res ≡ fetched json
    → IsGood json res
unfolding check_response
check_response_lem web res json h = elim (Bool-cases (leb 200 res.status && leb res.status 299)) [
  | inr k ↦ none_absurd (ap answer (rw (k, check_response) at h))
  | inl k ↦ elim (Option-cases res.json) [
    | inl n ↦ none_absurd (ap answer (rw (k, n, check_response) at h))
    | inr (body, n) ↦ elim (Bool-cases (shallow_validate_snapshot body)) [
      | inr v ↦ none_absurd (ap answer (rw (k, n, v, check_response) at h))
      | inl v ↦
          subst (λ j. IsGood j res) (some_inj.0 (ap answer (rw (k, n, v, check_response) at h)))
            ((ok_bounds res.status k).0, (ok_bounds res.status k).1, n, v)
    ]
  ]
]

-- A snapshot is handed on only from an address with a view and a threshold, which was built from a base that
-- is not empty, and only from an answer of success whose body has the shape of a snapshot.
pub fetch_dashboard_snapshot_lem :
    (web : Web) (base : Text) (view : DashboardView) (threshold : ℕ) (json : Json)
    → fetch_dashboard_snapshot web base view threshold ≡ fetched json
    → (is_empty base ≡ false)
      × ((url : Url) × (res : Response) × (web.fetch url ≡ some res)
          × IsGood json res
          × Present (txt "view") url.search_params
          × Present (txt "privacyThreshold") url.search_params)
unfolding fetch_dashboard_snapshot
fetch_dashboard_snapshot_lem web base view threshold json h = elim (Bool-cases (is_empty base)) [
  | inl e ↦ none_absurd (ap answer (rw (e, fetch_dashboard_snapshot) at h))
  | inr e ↦ elim (Option-cases (build_dashboard_url web base view threshold)) [
    | inl b ↦ none_absurd (ap answer (rw (e, b, fetch_dashboard_snapshot) at h))
    | inr (url, b) ↦ elim (Option-cases (web.fetch url)) [
      | inl f ↦ none_absurd (ap answer (rw (e, b, f, fetch_dashboard_snapshot) at h))
      | inr (res, f) ↦
          let good =
            check_response_lem web res json (rw (e, b, f, fetch_dashboard_snapshot) at h) in
          let named = build_dashboard_url_lem web base view threshold url b in
          (e, (url, res, f, good, named.0, named.1))
    ]
  ]
]
