-- ===== src/Identity/Tests.antt =====
-- The Identity API on a small database: a blueprint, an agent, and rows that were revoked.
mod Run
mod Authorize
mod Completed
use agent_identity_lab.Prelude.{
  ℕ, ◌+◌, String, true, ◌==◌, none, some, List, [], ◌∷◌, nat_str, if◌then◌else◌,
}
use agent_identity_lab.Prelude.Int.{pos}
use agent_identity_lab.Json.{Dict, str, arr, strs}
use agent_identity_lab.Common.{Settings, AgentStatus, BlueprintStatus}
use agent_identity_lab.Models.{
  AgentBlueprint, AgentIdentity, AgentSession, DelegationGrant, RuntimeAttestation,
}
use agent_identity_lab.Attestation.{Primitives, rsa, aware}
use agent_identity_lab.Tokens.{Jwt, decoded, wrong_signature}
use agent_identity_lab.Policy.Opa.{Opa, not_json}
use agent_identity_lab.Database.{Db, World, Environment}
use agent_identity_lab.Identity.Sessions.{SessionCreateRequest}

abbrev pub settings : Settings
settings = record {
  opa_url = "http://localhost:8181";
  jwt_private_key_path = "";
  jwt_public_key_path = "";
  jwt_algorithm = "RS256";
  jwt_audience = "mcp-gateway";
  jwt_issuer = "agent-identity-lab";
  admin_api_key = "dev-admin-key";
  identity_api_url = "http://localhost:8000";
  session_max_ttl_seconds = pos 1800;
}

abbrev pub env : Environment
env = record {
  time = λ draws. 7300000000 + draws;
  uuid = λ draws. 100 + draws;
  uuid_str = nat_str;
  uuid_hex = λ id. "00000000000000000000000000000007";
  parse_uuid = λ s. if s == "9" then some 9 else if s == "7" then some 7 else none;
}

abbrev pub prims : Primitives
prims = record {
  dumps = λ d. "claims";
  load_public = λ pem. some (rsa pem);
  from_hex = λ s. some [];
  check = λ key bytes message. true;
  from_iso = λ s. aware 7000000000;
  load_private = λ pem. some pem;
  sign_hex = λ key message. "ab";
}

-- The tokens "t9" and "t7" are known.
abbrev pub claims_of : String → Dict
claims_of jti =
    ("agent_id", str "1")
    ∷ ("trace_id", str "trace_1")
    ∷ ("jti", str jti)
    ∷ ("scopes", arr (strs ("repo:read" ∷ [])))
    ∷ []

abbrev pub jwt : Jwt
jwt = record {
  encode = λ claims key alg. some "token";
  decode = λ now token key alg aud iss.
      if token == "t9"
      then decoded (claims_of "9")
      else if token == "t7"
      then decoded (claims_of "7")
      else wrong_signature;
  file = λ path. none;
  ephemeral_keypair = ("private", "public");
}

-- A policy agent that does not answer.
abbrev pub opa : Opa
opa = record { query = λ i. not_json; health_status = none }

abbrev pub blueprint : AgentBlueprint
blueprint = record {
  id = 2;
  slug = "coding-agent";
  version = 1;
  name = "Coding agent";
  description = none;
  status = BlueprintStatus.active;
  approved_models = [];
  approved_environments = "development" ∷ [];
  max_scopes = "repo:read" ∷ [];
  tool_permissions = [];
  max_session_ttl_seconds = pos 600;
  runtime_requirements = [];
}

abbrev pub agent : AgentIdentity
agent = record {
  id = 1;
  principal_uri = "agent://local/coding-agent/1";
  blueprint_id = 2;
  owner_id = "alice";
  sponsor_id = none;
  status = AgentStatus.active;
  public_key = some "key";
  metadata = [];
  activated_at = some 5;
  suspended_at = none;
  revoked_at = none;
}

abbrev pub revoked_agent : AgentIdentity
revoked_agent = record agent {
  id = 3;
  principal_uri = "agent://local/coding-agent/3";
  status = AgentStatus.revoked;
  revoked_at = some 6;
}

abbrev pub attestation : RuntimeAttestation
attestation = record {
  id = 4;
  agent_id = 1;
  container_digest = "sha256:dev";
  git_commit = "dev";
  environment = "development";
  host_id = "localhost";
  framework = "hermes";
  framework_version = "0.4.0";
  model_id = "deepseek-chat";
  prompt_version = "v1";
  nonce = "n0";
  signature = "ab";
  issued_at = 7000000000;
  verified_at = none;
  verification_result = none;
}

abbrev pub live_session : AgentSession
live_session = record {
  id = 7;
  agent_id = 1;
  acting_user_id = none;
  delegation_grant_id = none;
  model_id = "deepseek-chat";
  prompt_version = "v1";
  runtime_attestation_id = 4;
  requested_scopes = "repo:read" ∷ [];
  effective_scopes = "repo:read" ∷ [];
  policy_version = "0.1.0";
  trace_id = "trace_1";
  issued_at = 7000000000;
  expires_at = 7600000000;
  revoked_at = none;
}

abbrev pub revoked_session : AgentSession
revoked_session = record live_session { id = 9; revoked_at = some 8 }

abbrev pub revoked_grant : DelegationGrant
revoked_grant = record {
  id = 5;
  user_id = "bob";
  agent_id = 1;
  scopes = "repo:read" ∷ [];
  resource_constraints = [];
  issued_at = 10;
  expires_at = 20;
  revoked_at = some 15;
}

abbrev pub tables : Db
tables = record {
  blueprints = blueprint ∷ [];
  agents = agent ∷ revoked_agent ∷ [];
  attestations = attestation ∷ [];
  delegations = revoked_grant ∷ [];
  sessions = live_session ∷ revoked_session ∷ [];
  leases = [];
  events = [];
}

abbrev pub world : World
world = record { db = tables; durable = tables; nonces = []; draws = 0 }

abbrev pub attested : Dict
attested =
    ("agent_id", str "1")
    ∷ ("container_digest", str "sha256:dev")
    ∷ ("git_commit", str "dev")
    ∷ ("environment", str "development")
    ∷ ("host_id", str "localhost")
    ∷ ("framework", str "hermes")
    ∷ ("framework_version", str "0.4.0")
    ∷ ("model", str "deepseek-chat")
    ∷ ("prompt_version", str "v1")
    ∷ ("issued_at", str "2026-07-10T00:00:00Z")
    ∷ ("nonce", str "n1")
    ∷ ("signature", str "ab")
    ∷ []

abbrev pub session_request : SessionCreateRequest
session_request = record {
  agent_id = 1;
  acting_user_id = none;
  delegation_grant_id = none;
  requested_scopes = "repo:read" ∷ [];
  requested_ttl_seconds = pos 900;
  model_id = "deepseek-chat";
  prompt_version = "v1";
  runtime_attestation = attested;
}
