-- ===== src/System/Tests.antt =====
-- Requests through the gateway to the Identity API on the small database.
use agent_identity_lab.Prelude.{List, ◌≡◌, refl, ◌⊎◌, some, [], ◌∷◌, lookup, get_or, String, strip}
use agent_identity_lab.Common.{Message}
use agent_identity_lab.Exec.{Error, err}
use agent_identity_lab.Models.Table.{find}
use agent_identity_lab.Tokens.{load_public_key, check_claims, check_decoded, validate_session_token}
use agent_identity_lab.Database.{find_session}
use agent_identity_lab.Identity.Authorization.Refused.{TokenFor}
use agent_identity_lab.Identity.Requests.{Request, post_agent_activate, serve}
use agent_identity_lab.Identity.Tests.{
  settings, env, prims, jwt, opa, claims_of, revoked_session, tables, world,
}
use agent_identity_lab.Gateway.{GatewayRequest, Network, object, bearer_of, proxy_mcp_request}
use agent_identity_lab.System.{network_at, question}
use agent_identity_lab.System.Guarded.{
  IsGuarded, proxy_mcp_request-IsGuarded, proxy_mcp_request-revoked,
}

abbrev shown : Message → String
shown m = "message"

abbrev network : Network
network = record {
  ask = λ token tool operation. object 500 [];
  send = λ sent. some (record { status = 200; content_type = "application/json"; content = "{}" });
  urlencode = λ params. "q=x";
  rendered = λ content. some content;
  printed = λ v. "";
}

abbrev request : GatewayRequest
request = record {
  method = "POST";
  headers = ("authorization", "Bearer t7") ∷ [];
  query_params = [];
  body = "{}";
}

proxy_mcp_request-IsGuarded_example :
    let p =
      proxy_mcp_request settings jwt
        (network_at settings env jwt opa shown world network)
        0
        request
        "github"
        "search_code"
        [] in
    ((e : Error) × (p.0 ≡ err e) × (p.1 ≡ []))
    ⊎ IsGuarded settings env jwt opa shown world request "github" "search_code" [] p.1
proxy_mcp_request-IsGuarded_example =
    proxy_mcp_request-IsGuarded settings env jwt opa shown world network 0 request "github"
      "search_code" []

-- The token of a session that was revoked.
abbrev late : GatewayRequest
late = record request { headers = ("authorization", "Bearer t9") ∷ [] }

abbrev requests : List Request
requests = post_agent_activate (some "dev-admin-key") 3 ∷ []

session_found : find_session 9 tables ≡ some revoked_session
unfolding find
session_found = refl

late_token :
    TokenFor settings env jwt opa
      (question
        (bearer_of (get_or (lookup "authorization" late.headers) ""))
        "github"
        "search_code")
      (serve settings env prims jwt requests world).draws
      9
unfolding question bearer_of strip lookup validate_session_token check_decoded check_claims
    load_public_key
late_token = record {
  claims = claims_of "9";
  valid = refl;
  jti = "9";
  given = refl;
  nonempty = refl;
  parsed = refl;
}

proxy_mcp_request-revoked_example :
    let p =
      proxy_mcp_request settings jwt
        (network_at settings env jwt opa shown
          (serve settings env prims jwt requests world)
          network)
        0
        late
        "github"
        "search_code"
        [] in
    (e : Error) × (p.0 ≡ err e) × (p.1 ≡ [])
proxy_mcp_request-revoked_example =
    proxy_mcp_request-revoked settings env jwt opa shown prims requests world 9 8 revoked_session
      session_found refl network 0 late "github" "search_code" [] late_token
