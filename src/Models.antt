-- ===== src/Models.antt =====
-- The tables: packages/identity_models, packages/attestation/models.py and packages/audit/models.py.
-- A UUID is a number, a time is in microseconds since the year 1. The columns `created_at` and
-- `updated_at`, which the database fills in and no code reads back, are left out.
pub mod Table
use agent_identity_lab.Prelude.{ℕ, String, Option, List}
use agent_identity_lab.Prelude.Int.{ℤ}
use agent_identity_lab.Json.{Dict}
use agent_identity_lab.Common.{BlueprintStatus, AgentStatus, VerificationResult}

pub record AgentBlueprint : Type 0 where
  pub id : ℕ
  pub slug : String
  pub version : ℕ
  pub name : String
  pub description : Option String
  pub status : BlueprintStatus
  pub approved_models : List String
  pub approved_environments : List String
  pub max_scopes : List String
  pub tool_permissions : List (String × List String)
  pub max_session_ttl_seconds : ℤ
  pub runtime_requirements : Dict

pub record AgentIdentity : Type 0 where
  pub id : ℕ
  pub principal_uri : String
  pub blueprint_id : ℕ
  pub owner_id : String
  pub sponsor_id : Option String
  pub status : AgentStatus
  pub public_key : Option String
  pub metadata : Dict
  pub activated_at : Option ℕ
  pub suspended_at : Option ℕ
  pub revoked_at : Option ℕ

pub record RuntimeAttestation : Type 0 where
  pub id : ℕ
  pub agent_id : ℕ
  pub container_digest : String
  pub git_commit : String
  pub environment : String
  pub host_id : String
  pub framework : String
  pub framework_version : String
  pub model_id : String
  pub prompt_version : String
  pub nonce : String
  pub signature : String
  pub issued_at : ℕ
  pub verified_at : Option ℕ
  pub verification_result : Option VerificationResult

pub record DelegationGrant : Type 0 where
  pub id : ℕ
  pub user_id : String
  pub agent_id : ℕ
  pub scopes : List String
  pub resource_constraints : Dict
  pub issued_at : ℕ
  pub expires_at : ℕ
  pub revoked_at : Option ℕ

pub record AgentSession : Type 0 where
  pub id : ℕ
  pub agent_id : ℕ
  pub acting_user_id : Option String
  pub delegation_grant_id : Option ℕ
  pub model_id : String
  pub prompt_version : String
  pub runtime_attestation_id : ℕ
  pub requested_scopes : List String
  pub effective_scopes : List String
  pub policy_version : String
  pub trace_id : String
  pub issued_at : ℕ
  pub expires_at : ℕ
  pub revoked_at : Option ℕ

pub record CredentialLease : Type 0 where
  pub id : ℕ
  pub session_id : ℕ
  pub tool_id : String
  pub scopes : List String
  pub provider : String
  pub issued_at : ℕ
  pub expires_at : ℕ
  pub revoked_at : Option ℕ

pub record AuditEvent : Type 0 where
  pub id : ℕ
  pub event_type : String
  pub timestamp : ℕ
  pub agent_id : Option ℕ
  pub acting_user_id : Option String
  pub session_id : Option ℕ
  pub trace_id : Option String
  pub tool_id : Option String
  pub operation : Option String
  pub decision : Option String
  pub reason : Option String
  pub payload : Dict
  pub previous_hash : Option String
  pub record_hash : String
