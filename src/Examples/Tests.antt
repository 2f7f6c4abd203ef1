-- ===== src/Examples/Tests.antt =====
-- The demonstrations, run against services without rows.
use package.text.Mathlib.Text.{starts_with}
use agent_identity_lab.Database.{
  attestation_fits, session_fits, blueprint_fits, agent_fits, lease_fits, fits, fits_json,
}
use agent_identity_lab.Prelude.{
  ℕ, zero, suc, ◌+◌, String, ◌≡◌, ◌≢◌, refl, ap, true, none, some, List, [], ◌∷◌, get_or, pop, put,
  lookup, replace_z, rstrip_slash, contains, nat_str, elem, to_set, ◌∩◌, insert, sorted, ends_with,
}
use agent_identity_lab.Prelude.Int.{pos, min_ℤ, add_seconds}
use agent_identity_lab.Json.{str, arr, strs, as_str, get, truthy, to_strs}
use agent_identity_lab.Common.{Settings}
use agent_identity_lab.Exec.{ok, err, assertion_error}
use agent_identity_lab.Attestation
use agent_identity_lab.Attestation.{Primitives, rsa, aware, sign_attestation}
use agent_identity_lab.Tokens.{
  Jwt, decoded, timestamp, load_private_key, load_public_key, session_claims, issue_session_token,
  check_claims, check_decoded, validate_session_token,
}
use agent_identity_lab.Policy.Opa.{Opa, not_json}
use agent_identity_lab.Policy.Opa.{
  opa_health, get_policy_adapter, adapter_evaluate, authorize_tool_access,
}
use agent_identity_lab.Policy.Python.{
  tool_key, required_scopes, effective_of, intersect, evaluate_known, evaluate,
}
use agent_identity_lab.Models.Table.{find, replace}
use agent_identity_lab.Database.{
  Db, World, Environment, add_attestation, add_session, add_blueprint, add_agent, add_lease,
  save_agent, save_blueprint,
}
use agent_identity_lab.Database.Transaction.{with_db}
use agent_identity_lab.Identity.Agents
use agent_identity_lab.Identity.Blueprints
use agent_identity_lab.Identity.Authorization
use agent_identity_lab.Identity.Sessions.Api
use agent_identity_lab.Identity.Sessions.Api.{session_response}
use agent_identity_lab.Identity.Sessions.{
  attestation_row, issued_at_of, opener, check_delegation, verify_now, store_attestation, attest,
  ttl_of, session_row, issue_now, open_session, service_create_session,
}
use agent_identity_lab.Broker
use agent_identity_lab.Client
use agent_identity_lab.Client.{Machine}
use agent_identity_lab.Examples
use agent_identity_lab.Examples.{create_blueprint_and_agent, exchange_token, blueprint_post}
use agent_identity_lab.Examples.Demos.{
  after_suspension, expect_refused, suspended_agent, machine_only_session, invalid_runtime,
  authorized_read, denied_write, secret_isolation,
}
use agent_identity_lab.Examples.Suspended.{suspended_agent-never_asserts}

abbrev settings : Settings
settings = record {
  opa_url = "http://localhost:8181";
  jwt_private_key_path = "";
  jwt_public_key_path = "";
  jwt_algorithm = "RS256";
  jwt_audience = "mcp-gateway";
  jwt_issuer = "agent-identity-lab";
  admin_api_key = "test-admin-key";
  identity_api_url = "http://localhost:8000";
  session_max_ttl_seconds = pos 1800;
}

-- An id as so many letters, which are counted to read it back.
letters : ℕ → String
letters zero = ""
letters (suc n) = String.◌∷◌ "a" (letters n)

count : String → ℕ
count String.[] = 0
count (String.◌∷◌ c s) = suc (count s)

count-letters : (id : ℕ) → count (letters id) ≡ id
unfolding letters count
count-letters zero = refl
count-letters (suc n) = ap suc (count-letters n)

demo_code : Unit {0}
unfolding letters count machine_only_session invalid_runtime authorized_read denied_write
    secret_isolation suspended_agent after_suspension expect_refused create_blueprint_and_agent
    Examples.create_blueprint Examples.create_agent Examples.suspend_agent exchange_token
    blueprint_post Client.create_session Client.post_session Client.authorize Client.call
    Client.read_post Client.session_post Client.attestation_claims Client.update
    Client.generate_keypair Client.new_client rstrip_slash contains starts_with put session_response
    with_db Api.create_session service_create_session open_session issue_now session_row ttl_of
    attest store_attestation verify_now check_delegation opener attestation_row issued_at_of
    Attestation.verify Attestation.verify_key Attestation.check_signature Attestation.signature_ok
    Attestation.check_issued_at Attestation.parse_issued_at Attestation.check_moment
    Attestation.check_time Attestation.check_nonce Attestation.check_claims Attestation.missing_of
    Attestation.seen Attestation.hashed sign_attestation issue_session_token validate_session_token
    session_claims check_claims check_decoded load_private_key load_public_key timestamp lookup pop
    nat_str replace_z truthy to_strs find replace attestation_fits session_fits blueprint_fits
    agent_fits lease_fits fits fits_json add_attestation add_session add_blueprint add_agent
    add_lease save_agent save_blueprint min_ℤ add_seconds Agents.create_agent Agents.activate_agent
    Agents.suspend_agent Agents.admin Agents.existing_agent Agents.create Agents.update
    Agents.build_principal_uri Blueprints.create_blueprint Blueprints.activate_blueprint
    Blueprints.admin Blueprints.existing_blueprint Blueprints.create Blueprints.update
    Blueprints.is_valid_create Blueprints.get_by_slug Authorization.authorize
    Authorization.authorize_session Authorization.session_of Authorization.decide
    Authorization.respond authorize_tool_access adapter_evaluate get_policy_adapter opa_health
    evaluate evaluate_known intersect effective_of required_scopes tool_key elem to_set ◌∩◌ insert
    sorted ends_with Broker.token_exchange Broker.exchange Broker.lease Broker.issue
    Broker.issue_mock_oauth Broker.select_provider
demo_code = tt

-- The clock moves by a microsecond with each draw.
abbrev env : Environment
env = record {
  time = λ draws. 7300000000 + draws;
  uuid = λ draws. draws + 1;
  uuid_str = letters;
  uuid_hex = λ id. "0000000000000007";
  parse_uuid = λ s. some (count s);
}

abbrev machine : Machine
machine = record { generate = λ draws. ("private", "public"); isoformat = λ t. "now" }

abbrev prims : Primitives
prims = record {
  dumps = λ d. "claims";
  load_public = λ pem. some (rsa pem);
  from_hex = λ s. some [];
  check = λ key bytes message. true;
  from_iso = λ s. aware 7300000000;
  load_private = λ pem. some pem;
  sign_hex = λ key message. "ab";
}

-- A token is the id of its session; the scopes are those of the demonstration.
abbrev jwt_for : List String → Jwt
jwt_for scopes = record {
  encode = λ claims key alg. some (get_or (as_str (get "jti" claims)) "");
  decode = λ now token key alg aud iss. decoded (
      ("agent_id", str "a")
      ∷ ("trace_id", str "trace_1")
      ∷ ("jti", str token)
      ∷ ("scopes", arr (strs scopes))
      ∷ []);
  file = λ path. none;
  ephemeral_keypair = ("private", "public");
}

abbrev opa : Opa
opa = record { query = λ i. not_json; health_status = none }

abbrev no_rows : Db
no_rows = record {
  blueprints = [];
  agents = [];
  attestations = [];
  delegations = [];
  sessions = [];
  leases = [];
  events = [];
}

abbrev world : World
world = record { db = no_rows; durable = no_rows; nonces = []; draws = 0 }

passes_machine_only :
    (machine_only_session settings env prims (jwt_for ("repo:read" ∷ [])) opa machine world).0
    ≡ ok tt
unfolding demo_code
passes_machine_only = refl

passes_invalid_runtime :
    (invalid_runtime settings env prims (jwt_for ("repo:read" ∷ [])) opa machine world).0 ≡ ok tt
unfolding demo_code
passes_invalid_runtime = refl

passes_authorized_read :
    (authorized_read settings env prims (jwt_for ("repo:read" ∷ [])) opa machine world).0 ≡ ok tt
unfolding demo_code
passes_authorized_read = refl

passes_denied_write :
    (denied_write settings env prims (jwt_for ("issues:write" ∷ [])) opa machine world).0 ≡ ok tt
unfolding demo_code
passes_denied_write = refl

passes_secret_isolation :
    (secret_isolation settings env prims (jwt_for ("repo:read" ∷ [])) opa machine world).0 ≡ ok tt
unfolding demo_code
passes_secret_isolation = refl

passes_suspended_agent :
    (suspended_agent settings env prims (jwt_for ("repo:read" ∷ [])) opa machine world).0 ≡ ok tt
unfolding demo_code
passes_suspended_agent = refl

suspended_agent-never_asserts_example :
    (suspended_agent settings env prims (jwt_for ("repo:read" ∷ [])) opa machine world).0
    ≢ err assertion_error
suspended_agent-never_asserts_example =
    suspended_agent-never_asserts settings env prims (jwt_for ("repo:read" ∷ [])) machine opa world
      (λ id. ap some (count-letters id))
