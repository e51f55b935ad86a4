-- ===== src/Runtime/Proxy.antt =====
-- The routes website/src/app/api/proxy/{state,health,events/list,events}/route.ts, and the client
-- functions of website/src/lib/runtime-client.ts that call them.
use shadownet_agent.Common.Text.{Text, txt, decimal}
use shadownet_agent.Common.{
  ℕ, ◌≡◌, refl, arith, Bool, true, false, not, ◌&&◌, ◌||◌, Option, none, some, [], ◌++◌, leb, ◌==◌,
  if◌then◌else◌, is_empty, option_branch, either_branch, none_absurd,
}

-- The answer of the runtime; `text` is `none` if reading it throws.
pub record Upstream : Type 0 where
  pub status : ℕ
  pub content_type : Option Text
  pub has_body : Bool
  pub text : Option Text

-- A body that is sent whole, or passed on as it arrives.
pub data Body : Type 0 where
  whole : Text → Body
  stream : Body

pub record Reply : Type 0 where
  pub status : ℕ
  pub content_type : Text
  pub cache_control : Text
  pub body : Body

-- `res.ok`
unfoldable pub is_ok : ℕ → Bool
is_ok status = leb 200 status && leb status 299

-- `new Response(body, { status })` throws outside 200 to 599, and on a status without a body.
unfoldable pub takes_body : ℕ → Bool
takes_body status =
    leb 200 status && leb status 599 && not (status == 204 || status == 205 || status == 304)

unfoldable pub respond : ℕ → Text → Body → Option Reply
respond status content_type body =
    if takes_body status
    then some (record {
      status = status;
      content_type = content_type;
      cache_control = txt "no-store";
      body = body;
    })
    else none

abbrev pub unavailable_text : Text
unavailable_text = txt "{\"error\":\"runtime_unavailable\"}"

-- What every `catch` answers.
abbrev pub unavailable : Reply
unavailable = record {
  status = 503;
  content_type = txt "application/json";
  cache_control = txt "no-store";
  body = whole unavailable_text;
}

abbrev or_unavailable : Option Reply → Reply
or_unavailable none = unavailable
or_unavailable (some r) = r

abbrev or_text : Option Text → Text → Text
or_text none t = t
or_text (some s) t = s

abbrev non_empty_or : Text → Text → Text
non_empty_or t d = if is_empty t then d else t

-- `fetch`, with what the abort after 800 ms makes of it: `none` where it throws.
abbrev pub Fetch : Type 0
Fetch = Text → Option Upstream

-- The body of the state, health and list routes, after the call.
unfoldable pub pass_on : Upstream → Option Reply
pass_on res = elim res.text [
  | none ↦ none
  | some body ↦ respond res.status (or_text res.content_type (txt "application/json")) (whole body)
]

unfoldable pub proxy_get : Text → Fetch → Text → Reply
proxy_get runtime_base fetch path = elim (fetch (runtime_base ++ path)) [
  | none ↦ unavailable
  | some res ↦ or_unavailable (pass_on res)
]

abbrev pub state_route : Text → Fetch → Reply
state_route runtime_base fetch = proxy_get runtime_base fetch (txt "/api/state")

abbrev pub health_route : Text → Fetch → Reply
health_route runtime_base fetch = proxy_get runtime_base fetch (txt "/api/health")

abbrev pub list_route : Text → Fetch → Reply
list_route runtime_base fetch = proxy_get runtime_base fetch (txt "/api/events")

-- The body of the event route, after the call.
unfoldable pub pass_events : Upstream → Option Reply
pass_events res = elim (not (is_ok res.status) || not res.has_body) [
  | true ↦
      respond (if res.status == 0 then 503 else res.status) (txt "application/json")
        (whole (non_empty_or (or_text res.text []) unavailable_text))
  | false ↦ respond res.status (txt "text/event-stream") stream
]

unfoldable pub events_route : Text → Fetch → Reply
events_route runtime_base fetch = elim (fetch (runtime_base ++ txt "/api/events/stream")) [
  | none ↦ unavailable
  | some res ↦ or_unavailable (pass_events res)
]

pub data Outcome (A : Type 0) : Type 0 where
  failed : Text → Outcome A
  value : A → Outcome A

abbrev text_of : Body → Text
text_of (whole t) = t
text_of stream = []

-- fetchJSON on the answer of a route; `parse` is `res.json()`, which fails with the message
-- of its error.
unfoldable pub fetch_json : {A : Type 0} → (Text → Outcome A) → Text → Reply → Outcome A
fetch_json parse path res = elim (is_ok res.status) [
  | false ↦
      failed (non_empty_or (text_of res.body) (path ++ (txt " failed: " ++ decimal res.status)))
  | true ↦ parse (text_of res.body)
]

-- A reply that can be sent, and is not cached.
abbrev pub IsSent : Reply → Type 0
IsSent r = (takes_body r.status ≡ true) × (r.cache_control ≡ txt "no-store")

or_unavailable-IsSent :
    (o : Option Reply) → ((r : Reply) → o ≡ some r → IsSent r) → IsSent (or_unavailable o)
unfolding takes_body
or_unavailable-IsSent none h = (refl, refl)
or_unavailable-IsSent (some r) h = h r refl

respond-IsSent :
    (status : ℕ) (content_type : Text) (body : Body) (r : Reply)
    → respond status content_type body ≡ some r
    → IsSent r
unfolding respond
respond-IsSent status content_type body r h = ground arith

abbrev AllSent : Option Reply → Type 0
AllSent o = (r : Reply) → o ≡ some r → IsSent r

pass_on-AllSent : (res : Upstream) → AllSent (pass_on res)
unfolding pass_on
pass_on-AllSent res =
    option_branch AllSent res.text (λ e r k. none_absurd k)
      (λ body e.
        respond-IsSent res.status (or_text res.content_type (txt "application/json")) (whole body))

pass_events-AllSent : (res : Upstream) → AllSent (pass_events res)
unfolding pass_events
pass_events-AllSent res =
    either_branch AllSent (not (is_ok res.status) || not res.has_body)
      (respond-IsSent (if res.status == 0 then 503 else res.status) (txt "application/json")
        (whole (non_empty_or (or_text res.text []) unavailable_text)))
      (respond-IsSent res.status (txt "text/event-stream") stream)

-- Every route answers, whatever the runtime does: with a status that a reply can have, and not to be
-- cached.
pub proxy-IsSent :
    (runtime_base path : Text) (fetch : Fetch)
    → IsSent (proxy_get runtime_base fetch path) × IsSent (events_route runtime_base fetch)
unfolding proxy_get events_route takes_body
proxy-IsSent runtime_base path fetch = (
  option_branch IsSent (fetch (runtime_base ++ path)) (λ e. (refl, refl))
      (λ res e. or_unavailable-IsSent (pass_on res) (pass_on-AllSent res)),
  option_branch IsSent (fetch (runtime_base ++ txt "/api/events/stream")) (λ e. (refl, refl))
      (λ res e. or_unavailable-IsSent (pass_events res) (pass_events-AllSent res)),
)

-- Without a runtime, the client's call of a route fails with the text of the routes' error.
pub fetch_json-unavailable :
    {A : Type 0} (parse : Text → Outcome A) (runtime_base route path : Text) (fetch : Fetch)
    → fetch (runtime_base ++ route) ≡ none
    → fetch_json parse path (proxy_get runtime_base fetch route) ≡ failed unavailable_text
unfolding fetch_json proxy_get is_ok txt
fetch_json-unavailable parse runtime_base route path fetch e = rw (e, proxy_get) refl
