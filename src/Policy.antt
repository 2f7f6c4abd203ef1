-- ===== src/Policy.antt =====
-- packages/policy_client and services/policy_service.py: the policy engines behind one interface.
-- The dictionaries of a `PolicyInput` are records of optional keys, at the types that the
-- service and its callers put there.
pub mod Tools
pub mod Python
pub mod Opa
mod Tests
use agent_identity_lab.Prelude.{String, Option, List, []}
use agent_identity_lab.Common.{PolicyDecision, Message}

pub record AgentFacts : Type 0 where
  pub id : Option String
  pub status : Option String
  pub scopes : Option (List String)

pub record BlueprintFacts : Type 0 where
  pub id : Option String
  pub slug : Option String
  pub status : Option String
  pub max_scopes : Option (List String)
  pub approved_environments : Option (List String)
  pub approved_models : Option (List String)

pub record UserFacts : Type 0 where
  pub id : Option String
  pub scopes : Option (List String)

pub record SessionFacts : Type 0 where
  pub id : Option String
  pub model_id : Option String
  pub trace_id : Option String

pub record RuntimeFacts : Type 0 where
  pub environment : Option String
  pub host_id : Option String
  pub framework : Option String
  pub framework_version : Option String
  pub model_id : Option String
  pub prompt_version : Option String

pub record ActionFacts : Type 0 where
  pub operation : Option String
  pub requested_scopes : Option (List String)

pub record PolicyInput : Type 0 where
  pub agent : AgentFacts
  pub blueprint : BlueprintFacts
  pub user : UserFacts
  pub session : SessionFacts
  pub runtime : RuntimeFacts
  -- `tool["id"]` and `environment["name"]`, the one key of each
  pub tool_id : Option String
  pub action : ActionFacts
  pub environment_name : Option String

pub record PolicyOutput : Type 0 where
  pub decision : PolicyDecision
  pub reason : Message
  pub effective_scopes : List String
  pub obligations : List String
  pub policy_version : String
