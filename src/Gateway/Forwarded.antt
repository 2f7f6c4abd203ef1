-- ===== src/Gateway/Forwarded.antt =====
-- When the gateway forwards a request, and what it then sends.
use package.text.Mathlib.TextPositions.{eq_refl}
use package.text.Mathlib.Text.{starts_with}
use agent_identity_lab.Prelude.{
  ℕ, ◌<◌, String, ◌≡◌, refl, sym, ap, ◌∙◌, ◌⊎◌, inl, inr, true, not, eq_iff, Option, none, some,
  List, [], ◌∷◌, ◌++◌, if◌then◌else◌, get_or, put, pop, lookup, lookup-put, lookup-pop, ◌==◌, false,
  arith,
}
use agent_identity_lab.Json.{Json, Dict, null, str, as_str, json_is, get}
use agent_identity_lab.Common.{Settings}
use agent_identity_lab.Exec.{Error, value_error, Result, Result-cases, ok, err}
use agent_identity_lab.Exec.Keeps.{
  IsPreorder, Relates, Relates-bind, Relates-pure, Relates-raise, Relates-raise_if,
  Relates-or_raise, Relates-lift,
}
use agent_identity_lab.Exec.Ensures.{
  Ensures, Ensures-ok, Ensures-bind, Ensures-lift, Ensures-or_raise, Ensures-raise_if, of_not,
}
use agent_identity_lab.Policy.Tools.{get_required_scopes}
use agent_identity_lab.Tokens.{Jwt, validate_session_token}
use agent_identity_lab.Identity.Authorization.{token_handler}
use agent_identity_lab.Gateway.Headers.{trace-lookup}
use agent_identity_lab.Gateway.{
  GatewayRequest, AuthorizeReply, transport_error, no_json, no_object, object, Outgoing, McpReply,
  Network, bearer_of, Log, authenticate, read_reply, authorize, credentials_of, inject,
  stripped_headers, outgoing, relay, send_out, forward, admit, proxy_mcp_request,
}

same_log : IsPreorder {S = Log} (λ l m. m ≡ l)
same_log = record { reflexive = λ l. refl; transitive = λ l m n h k. k ∙ h }

ruleset quiet_rules = (
  Relates-bind, Relates-pure, Relates-raise, Relates-raise_if, Relates-or_raise, Relates-lift,
  same_log,
)

get-put : (k : String) (v : Json) (d : Dict) → get k (put k v d) ≡ v
get-put k v d =
    ap (λ o. elim o [ none ↦ null | some x ↦ x ])
      (lookup-put k k v d ∙ ap (λ b. if b then some v else lookup k d) (eq_refl k))

read_reply-object :
    (settings : Settings) (jwt : Jwt) (network : Network) (reply : AuthorizeReply) (body : Dict)
    → read_reply settings jwt network reply ≡ ok body
    → (status : ℕ) × (reply ≡ object status body) × (status < 400)
unfolding read_reply
read_reply-object settings jwt network transport_error body h = absurd (cc h)
read_reply-object settings jwt network (no_json status) body h = absurd (ground arith)
read_reply-object settings jwt network (no_object status) body h = absurd (ground arith)
read_reply-object settings jwt network (object status found) body h =
    let (same, small) = good_status status found h in (status, same, small)
  where
    good_status :
        (status : ℕ) (found : Dict)
        → read_reply settings jwt network (object status found) ≡ ok body
        → (object status found ≡ object status body) × (status < 400)
    good_status status found h = ground arith

json_is-str : (v : Json) (s : String) → json_is v s ≡ true → v ≡ str s
json_is-str (str t) s h = ap str ((eq_iff t s).0 h)
json_is-str _ s h = absurd (cc h)

let_through : (r : Result Dict) (c : Dict) → token_handler r ≡ ok c → r ≡ ok c
let_through (ok a) c h = h
let_through (err (value_error m)) c h = absurd (cc h)
let_through (err e) c h = absurd (cc h)

module _ (settings : Settings) (jwt : Jwt) (network : Network) (now : ℕ) (request : GatewayRequest)
    (tool_id operation : String) where
  -- The checks before a request is forwarded.
  pub record IsAdmitted (credentials : Option Dict) : Type 0 where
    pub header : String
    pub given : get_or (lookup "authorization" request.headers) "" ≡ header
    pub bearer : starts_with header "Bearer " ≡ true
    pub claims : Dict
    pub valid : validate_session_token jwt settings now (bearer_of header) ≡ ok claims
    pub required : List String
    pub known : get_required_scopes tool_id operation ≡ some required
    pub status : ℕ
    pub reply : Dict
    pub asked : network.ask (bearer_of header) tool_id operation ≡ object status reply
    pub good : status < 400
    pub allowed : get "decision" reply ≡ str "allow"
    pub credentials_given :
        credentials_of settings jwt network (get "downstream_credentials" reply) ≡ ok credentials

  admit-quiet : Relates (λ l m. m ≡ l) (admit settings jwt network now request tool_id operation)
  unfolding admit authenticate authorize
  admit-quiet = search quiet_rules depth 20

  abbrev header : String
  header = get_or (lookup "authorization" request.headers) ""

  abbrev Authentic : Dict → Log → Log → Type 0
  Authentic claims before after =
      (starts_with header "Bearer " ≡ true)
      × ((c : Dict) × (validate_session_token jwt settings now (bearer_of header) ≡ ok c)
          × (claims ≡ put "_raw_token" (str (bearer_of header)) c))
      × (after ≡ before)

  authenticate-Authentic :
      (log : Log)
      → Ensures
          (authenticate settings jwt network now request log)
          (λ claims l. Authentic claims log l)
  unfolding authenticate
  authenticate-Authentic log =
      Ensures-raise_if Q (not (starts_with header "Bearer ")) _ _ log λ bearer.
        Ensures-lift Q (token_handler (validate_session_token jwt settings now (bearer_of header)))
          _ log
          λ claims valid.
            Ensures-ok Q _ log (of_not _ bearer, (claims, let_through _ claims valid, refl), refl)
    where
      Q : Dict → Log → Type 0
      Q claims l = Authentic claims log l

  Asked : String → Dict → Log → Log → Type 0
  Asked token reply before after =
      ((required : List String) × (get_required_scopes tool_id operation ≡ some required))
      × ((status : ℕ) × (network.ask token tool_id operation ≡ object status reply)
          × (status < 400))
      × (after ≡ before)

  as_str-str : (v : Json) (t : String) → as_str v ≡ some t → v ≡ str t
  as_str-str (str s) t h = cc h
  as_str-str _ t h = absurd (cc h)

  authorize-Asked :
      (claims : Dict) (log : Log)
      → Ensures
          (authorize settings jwt network claims tool_id operation log)
          (λ reply l. (t : String) × (get "_raw_token" claims ≡ str t) × Asked t reply log l)
  unfolding authorize Asked
  authorize-Asked claims log =
      Ensures-or_raise Q (get_required_scopes tool_id operation) _ _ log λ required known.
        Ensures-or_raise Q (as_str (get "_raw_token" claims)) _ _ log
          λ token is_text reply answered. (
            token,
            as_str-str _ token is_text,
            ((required, known), read_reply-object settings jwt network _ reply answered, refl),
          )
    where
      Q : Dict → Log → Type 0
      Q reply l = (t : String) × (get "_raw_token" claims ≡ str t) × Asked t reply log l

  admit-IsAdmitted :
      (log : Log)
      → Ensures (admit settings jwt network now request tool_id operation log) (λ c _. IsAdmitted c)
  unfolding admit Asked
  admit-IsAdmitted log =
      Ensures-bind (λ claims l. Authentic claims log l) Q
        (authenticate settings jwt network now request) _ log (authenticate-Authentic log)
        λ claims (bearer, (c, valid, with_token), _).
          Ensures-bind
            (λ reply l.
              (t : String) × (get "_raw_token" claims ≡ str t)
              × Asked t reply (authenticate settings jwt network now request log).1 l)
            Q (authorize settings jwt network claims tool_id operation) _ _
            (authorize-Asked claims _)
            λ reply found.
              Ensures-raise_if Q (not (json_is (get "decision" reply) "allow")) _ _ _
                λ allowed credentials given.
                  let (token, raw, ((required, known), (status, asked, good), _)) = found in
                  let is_token =
                    same_token token (bearer_of header)
                      (sym raw ∙ (ap (get "_raw_token") with_token ∙ get-put "_raw_token" _ c)) in
                  record {
                    header = header;
                    given = refl;
                    bearer = bearer;
                    claims = c;
                    valid = valid;
                    required = required;
                    known = known;
                    status = status;
                    reply = reply;
                    asked = ap (λ t. network.ask t tool_id operation) (sym is_token) ∙ asked;
                    good = good;
                    allowed = json_is-str _ "allow" (of_not _ allowed);
                    credentials_given = given;
                  }
    where
      Q : Option Dict → Log → Type 0
      Q c _ = IsAdmitted c

      same_token : (s t : String) → str s ≡ str t → s ≡ t
      same_token s t e = cc e

  -- The client's headers without two: `host` and `authorization` are gone, any other is as it was.
  pub record IsStripped (headers : List (String × String)) : Type 0 where
    pub no_host : lookup "host" headers ≡ none
    pub no_token : lookup "authorization" headers ≡ none
    pub others :
        (name : String)
        → ("host" == name) ≡ false
        → ("authorization" == name) ≡ false
        → lookup name headers ≡ lookup name request.headers

  stripped_headers-IsStripped : IsStripped (stripped_headers settings jwt network request)
  unfolding stripped_headers
  stripped_headers-IsStripped = record {
    no_host =
        lookup-pop "authorization" "host" (pop "host" request.headers)
        ∙ lookup-pop "host" "host" request.headers;
    no_token = lookup-pop "authorization" "authorization" (pop "host" request.headers);
    others = λ name other_host other_token.
        lookup-pop "authorization" name (pop "host" request.headers)
        ∙ rw (other_token, lookup-pop "host" name request.headers, other_host) refl;
  }

  -- What is sent: the request's method and body, with the credentials that came with the decision
  -- injected into the client's headers without two, and a header for the trace.
  pub record IsForwarded (before : Log) (r : Result McpReply) (after : Log) : Type 0 where
    pub credentials : Option Dict
    pub admitted : IsAdmitted credentials
    pub headers : List (String × String)
    pub base : List (String × String)
    pub stripped : IsStripped base
    pub injected : inject settings jwt network credentials base ≡ ok headers
    pub sent : Outgoing
    pub method : sent.method ≡ request.method
    pub content : sent.content ≡ request.body
    pub kept :
        (name : String)
        → ("X-Trace-ID" == name) ≡ false
        → lookup name sent.headers ≡ lookup name headers
    pub logged : after ≡ before ++ sent ∷ []
    pub relayed : r ≡ relay settings jwt network (network.send sent)

  forwarded :
      (before mid : Log) (credentials : Option Dict)
      → IsAdmitted credentials
      → mid ≡ before
      → let p = forward settings jwt network request tool_id operation credentials mid in
        ((e : Error) × (p.0 ≡ err e) × (p.1 ≡ before)) ⊎ IsForwarded before p.0 p.1
  unfolding forward send_out outgoing
  forwarded before mid credentials admitted same =
      elim (Result-cases
        (inject settings jwt network credentials (stripped_headers settings jwt network request))) [
          | inr (e, failed) ↦ inl (rw failed (e, refl, same))
          | inl (headers, injected) ↦ inr (
              rw injected (record {
                credentials = credentials;
                admitted = admitted;
                headers = headers;
                base = stripped_headers settings jwt network request;
                stripped = stripped_headers-IsStripped;
                injected = injected;
                sent = outgoing settings jwt network request tool_id operation headers;
                method = refl;
                content = refl;
                kept = λ name other. trace-lookup settings jwt network request name headers other;
                logged =
                    ap
                      (λ l.
                        l ++ outgoing settings jwt network request tool_id operation headers ∷ [])
                      same;
                relayed = refl;
              }))
        ]

  pub proxy_mcp_request-cases :
      (log : Log)
      → let p = proxy_mcp_request settings jwt network now request tool_id operation log in
        ((e : Error) × (p.0 ≡ err e) × (p.1 ≡ log)) ⊎ IsForwarded log p.0 p.1
  unfolding proxy_mcp_request
  proxy_mcp_request-cases log =
      let a = admit settings jwt network now request tool_id operation log in
      let quiet = admit-quiet.at log in
      elim (Result-cases a.0) [
        | inr (e, failed) ↦ inl (rw failed (e, refl, quiet))
        | inl (credentials, admitted) ↦
            rw admitted
              (forwarded log a.1 credentials (admit-IsAdmitted log credentials admitted) quiet)
      ]
