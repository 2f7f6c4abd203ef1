-- ===== src/Common.antt =====
-- packages/common: the enumerations (enums.py), the settings (settings.py) and the messages that
-- the services put into their errors.
use agent_identity_lab.Json.{Json}
use agent_identity_lab.Prelude.Int.{ℤ}
use agent_identity_lab.Prelude.{ℕ, String, List}

pub data BlueprintStatus : Type 0 where
  draft active inactive deprecated : BlueprintStatus

pub data AgentStatus : Type 0 where
  draft pending_approval active suspended revoked decommissioned : AgentStatus

pub data VerificationResult : Type 0 where
  pending verified rejected : VerificationResult

pub data PolicyDecision : Type 0 where
  allow deny : PolicyDecision

-- `str(status)` of a `StrEnum`
abbrev pub blueprint_status_str : BlueprintStatus → String
blueprint_status_str BlueprintStatus.draft = "draft"
blueprint_status_str BlueprintStatus.active = "active"
blueprint_status_str BlueprintStatus.inactive = "inactive"
blueprint_status_str BlueprintStatus.deprecated = "deprecated"

abbrev pub agent_status_str : AgentStatus → String
agent_status_str AgentStatus.draft = "draft"
agent_status_str AgentStatus.pending_approval = "pending_approval"
agent_status_str AgentStatus.active = "active"
agent_status_str AgentStatus.suspended = "suspended"
agent_status_str AgentStatus.revoked = "revoked"
agent_status_str AgentStatus.decommissioned = "decommissioned"

abbrev pub decision_str : PolicyDecision → String
decision_str allow = "allow"
decision_str deny = "deny"

-- The fields of `Settings` that the code reads; a PEM path is empty where a process is to use a
-- key pair of its own.
pub record Settings : Type 0 where
  pub opa_url : String
  pub jwt_private_key_path : String
  pub jwt_public_key_path : String
  pub jwt_algorithm : String
  pub jwt_audience : String
  pub jwt_issuer : String
  pub admin_api_key : String
  pub identity_api_url : String
  pub session_max_ttl_seconds : ℤ

-- A text of an error or a reason. An f-string is its template with the values that it prints; the
-- text of an exception of another library is left out.
pub data Message : Type 0 where
  text : String → Message
  with_str : String → String → Message
  with_strs : String → List String → Message
  with_json : String → Json → Message
  with_json_str : String → Json → String → Message
  with_time : String → ℕ → Message
  with_agent_status : String → AgentStatus → Message
  with_message : String → Message → Message
