-- ===== src/Tokens/Tests.antt =====
-- Tokens under concrete keys, and each theorem at one input.
use agent_identity_lab.Prelude.{
  ℕ, ◌*◌, ◌+◌, String, ◌≡◌, refl, ◌==◌, none, some, [], ◌∷◌, All, arith, true, lookup, nat_str,
  if◌then◌else◌,
}
use agent_identity_lab.Prelude.Int.{pos}
use agent_identity_lab.Json.{Dict, num, str, get, has_key}
use agent_identity_lab.Common.{Settings, text, with_strs}
use agent_identity_lab.Exec.{ok, err, value_error}
use agent_identity_lab.Models.{AgentSession}
use agent_identity_lab.Tokens.{
  Jwt, decoded, expired, wrong_signature, timestamp, load_private_key, load_public_key,
  session_claims, issue_session_token, required_claims, is_list, check_claims, check_decoded,
  validate_session_token,
}
use agent_identity_lab.Tokens.RoundTrip.{IsKeyPair, validate-issue, validate-claims}

token_code : Unit {0}
unfolding issue_session_token validate_session_token session_claims check_decoded check_claims
    lookup load_private_key load_public_key timestamp nat_str
token_code = tt

abbrev settings : Settings
settings = record {
  opa_url = "http://localhost:8181";
  jwt_private_key_path = "";
  jwt_public_key_path = "./keys/public.pem";
  jwt_algorithm = "RS256";
  jwt_audience = "mcp-gateway";
  jwt_issuer = "agent-identity-lab";
  admin_api_key = "dev-admin-key";
  identity_api_url = "http://localhost:8000";
  session_max_ttl_seconds = pos 1800;
}

-- Seconds since 1970 as a time.
abbrev at : ℕ → ℕ
at s = (62135596800 + s) * 1000000

abbrev session : AgentSession
session = record {
  id = 7;
  agent_id = 5;
  acting_user_id = none;
  delegation_grant_id = none;
  model_id = "deepseek-chat";
  prompt_version = "v1";
  runtime_attestation_id = 6;
  requested_scopes = "repo:read" ∷ [];
  effective_scopes = "repo:read" ∷ [];
  policy_version = "0.1.0";
  trace_id = "trace_1";
  issued_at = at 1000;
  expires_at = at 1900;
  revoked_at = none;
}

abbrev blank : Jwt
blank = record {
  encode = λ claims key alg. some "token";
  decode = λ now token key alg aud iss. wrong_signature;
  file = λ path. if path == "./keys/public.pem" then some "public" else none;
  ephemeral_keypair = ("private", "other");
}

abbrev claims : Dict
claims = session_claims blank settings nat_str (at 1000) session "research-agent:v1"

-- One token is known, and holds the session's claims.
abbrev jwt : Jwt
jwt = record blank {
  decode =
      λ now token key alg aud iss. if token == "token" then decoded claims else wrong_signature;
}

keys :
    IsKeyPair jwt "private" "public" "RS256"
      (session_claims jwt settings nat_str (at 1000) session "research-agent:v1")
unfolding token_code
keys = record {
  token = "token";
  encodes = refl;
  decodes = λ now iat exp audience issuer keys aud iss issued past expires alive. refl;
}

private_loads : load_private_key jwt settings ≡ ok "private"
unfolding token_code
private_loads = refl

public_loads : load_public_key jwt settings ≡ ok "public"
unfolding token_code
public_loads = refl

claims_run :
    (get "exp" claims ≡ num (pos 1900))
    × (get "sub" claims ≡ str "agent:5")
    × (get "blueprint_id" claims ≡ str "research-agent:v1")
unfolding token_code
claims_run = (refl, refl, refl)

validator_errors :
    (check_decoded expired ≡ err (value_error (text "Token has expired")))
    × (check_decoded (decoded (("scopes", str "x") ∷ []))
        ≡ err
            (value_error (with_strs "Missing required claims: {}" ("agent_id" ∷ "trace_id" ∷ []))))
unfolding token_code
validator_errors = (refl, refl)

in_time :
    (timestamp (at 1000) ≡ 1000)
    × (timestamp (at 1899) ≡ 1899)
    × (timestamp session.expires_at ≡ 1900)
unfolding timestamp
in_time = (refl, refl, refl)

validate-issue_example :
    (token : String) × (issue_session_token jwt settings nat_str
        (at 1000)
        session
        "research-agent:v1"
      ≡ ok token)
    × (validate_session_token jwt settings (at 1899) token
        ≡ ok (session_claims jwt settings nat_str (at 1000) session "research-agent:v1"))
validate-issue_example =
    validate-issue jwt settings nat_str (at 1000) (at 1899) session "research-agent:v1" "private"
      "public" private_loads public_loads keys (omega (arith, in_time)) (omega (arith, in_time))

token_valid : validate_session_token jwt settings (at 1899) "token" ≡ ok claims
unfolding token_code
token_valid = refl

validate-claims_example :
    (key : String) × (load_public_key jwt settings ≡ ok key)
    × (jwt.decode (at 1899) "token" key "RS256" "mcp-gateway" "agent-identity-lab" ≡ decoded claims)
    × All (λ claim. has_key claim claims ≡ true) required_claims
    × (is_list (get "scopes" claims) ≡ true)
validate-claims_example = validate-claims jwt settings (at 1899) "token" claims token_valid
