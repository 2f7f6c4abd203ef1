-- ===== src/Gateway/Tests.antt =====
-- Requests through the gateway, and each theorem at one of them.
use agent_identity_lab.Prelude.{
  ◌≡◌, refl, ◌==◌, none, some, [], ◌∷◌, pop, put, lookup, strip, if◌then◌else◌,
}
use agent_identity_lab.Prelude.Int.{pos}
use agent_identity_lab.Json.{Dict, str, arr, nil, truthy}
use agent_identity_lab.Common.{Settings, text}
use agent_identity_lab.Exec.{ok, err, http}
use agent_identity_lab.Tokens.{
  Jwt, decoded, wrong_signature, load_public_key, check_claims, check_decoded,
  validate_session_token,
}
use agent_identity_lab.Policy.Tools.{get_required_scopes}
use agent_identity_lab.Gateway.{
  GatewayRequest, object, Outgoing, Network, bearer_of, authenticate, read_reply, authorize,
  credentials_of, inject, stripped_headers, trace, target_url, outgoing, relay, send_out, forward,
  admit, proxy_mcp_request,
}
use agent_identity_lab.Gateway.Headers.{outgoing-no_token}

gateway_code : Unit {0}
unfolding proxy_mcp_request admit forward send_out relay outgoing target_url trace stripped_headers
    inject credentials_of authorize read_reply authenticate bearer_of strip get_required_scopes
    validate_session_token check_decoded check_claims load_public_key pop put lookup truthy
gateway_code = tt

abbrev settings : Settings
settings = record {
  opa_url = "http://localhost:8181";
  jwt_private_key_path = "";
  jwt_public_key_path = "";
  jwt_algorithm = "RS256";
  jwt_audience = "mcp-gateway";
  jwt_issuer = "agent-identity-lab";
  admin_api_key = "dev-admin-key";
  identity_api_url = "http://localhost:8000";
  session_max_ttl_seconds = pos 1800;
}

abbrev claims : Dict
claims = ("agent_id", str "1") ∷ ("trace_id", str "trace_1") ∷ ("scopes", arr nil) ∷ []

abbrev jwt : Jwt
jwt = record {
  encode = λ claims key alg. some "token";
  decode = λ now token key alg aud iss. if token == "good" then decoded claims else wrong_signature;
  file = λ path. none;
  ephemeral_keypair = ("private", "public");
}

-- The Identity API allows github and denies everything else.
abbrev network : Network
network = record {
  ask = λ token tool operation.
      object 200 (("decision", str (if tool == "github" then "allow" else "deny")) ∷ []);
  send = λ sent. some (record { status = 200; content_type = "application/json"; content = "{}" });
  urlencode = λ params. "q=x";
  rendered = λ content. some content;
  printed = λ v. "";
}

abbrev request : GatewayRequest
request = record {
  method = "POST";
  headers =
      ("host", "gateway")
      ∷ ("authorization", "Bearer good ")
      ∷ ("x-agent-trace-id", "trace_1")
      ∷ [];
  query_params = [];
  body = "{}";
}

abbrev sent : Outgoing
sent = record {
  method = "POST";
  url = "http://localhost:8003/github/search_code";
  headers = ("x-agent-trace-id", "trace_1") ∷ ("X-Trace-ID", "trace_1") ∷ [];
  content = "{}";
}

forwarded_run :
    proxy_mcp_request settings jwt network 0 request "github" "search_code" []
    ≡ (ok (record { status = 200; content_type = "application/json"; content = "{}" }), sent ∷ [])
unfolding gateway_code
forwarded_run = refl

denied_run :
    ((proxy_mcp_request settings jwt network 0 request "confluence" "search" []).1 ≡ [])
    × (proxy_mcp_request settings jwt network 0
          (record request { headers = [] })
          "github"
          "search_code"
          []
        ≡ (err (http 401 (text "Missing or invalid Authorization header")), []))
unfolding gateway_code
denied_run = (refl, refl)

no_credentials :
    inject settings jwt network none (stripped_headers settings jwt network request)
    ≡ ok (("x-agent-trace-id", "trace_1") ∷ [])
unfolding gateway_code
no_credentials = refl

outgoing-no_token_example :
    (lookup "authorization"
        (outgoing settings jwt network request "github" "search_code"
          (("x-agent-trace-id", "trace_1") ∷ [])).headers
      ≡ none)
    × (lookup "host"
          (outgoing settings jwt network request "github" "search_code"
            (("x-agent-trace-id", "trace_1") ∷ [])).headers
        ≡ none)
outgoing-no_token_example =
    outgoing-no_token settings jwt network request "github" "search_code"
      (("x-agent-trace-id", "trace_1") ∷ []) no_credentials
