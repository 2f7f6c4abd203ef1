-- ===== src/Identity/Authorization/Asked.antt =====
-- What the policy is to be asked for stored rows, and what a client is to be told of its output:
-- written out apart from the code of the route.
use agent_identity_lab.Prelude.{
  String, ◌≡◌, refl, ℕ, ◌==◌, Option, none, some, List, [], get_or, ◌+s◌, if◌then◌else◌,
}
use agent_identity_lab.Common.{Settings, agent_status_str, blueprint_status_str}
use agent_identity_lab.Models.{AgentIdentity, AgentBlueprint, AgentSession, RuntimeAttestation}
use agent_identity_lab.Policy.{PolicyInput, PolicyOutput}
use agent_identity_lab.Policy.Opa.{Opa, get_policy_adapter, adapter_evaluate, authorize_tool_access}
use agent_identity_lab.Tokens.{Jwt}
use agent_identity_lab.Database.{Environment}
use agent_identity_lab.Identity.Authorization.{AuthorizeRequest, AuthorizeResponse, decide, respond}

-- A text of the attestation, empty where there is none.
abbrev pub attested : (RuntimeAttestation → String) → Option RuntimeAttestation → String
attested column none = ""
attested column (some a) = column a

-- A text of the attestation, or else the session's.
abbrev pub attested_or : (RuntimeAttestation → String) → Option RuntimeAttestation → String → String
attested_or column none default = default
attested_or column (some a) default = column a

abbrev pub query_of :
    (ℕ → String)
    → (tool operation : String) (requested : List String) → AgentSession
    → AgentIdentity
    → AgentBlueprint
    → Option RuntimeAttestation
    → PolicyInput
query_of uuid_str tool operation requested session agent blueprint attestation = record {
  agent = record {
    id = some (uuid_str agent.id);
    status = some (agent_status_str agent.status);
    scopes = some session.effective_scopes;
  };
  blueprint = record {
    id = some (uuid_str blueprint.id);
    slug = some blueprint.slug;
    status = some (blueprint_status_str blueprint.status);
    max_scopes = some blueprint.max_scopes;
    approved_environments = some blueprint.approved_environments;
    approved_models = some blueprint.approved_models;
  };
  user = record { id = some (get_or session.acting_user_id ""); scopes = some [] };
  session = record {
    id = some (uuid_str session.id);
    model_id = some session.model_id;
    trace_id = some session.trace_id;
  };
  runtime = record {
    environment = some (attested (λ a. a.environment) attestation);
    host_id = some (attested (λ a. a.host_id) attestation);
    framework = some (attested (λ a. a.framework) attestation);
    framework_version = some (attested (λ a. a.framework_version) attestation);
    model_id = some (attested_or (λ a. a.model_id) attestation session.model_id);
    prompt_version = some (attested_or (λ a. a.prompt_version) attestation session.prompt_version);
  };
  tool_id = some tool;
  action = record { operation = some operation; requested_scopes = some requested };
  environment_name = some (
      if attested (λ a. a.environment) attestation == ""
      then "development"
      else attested (λ a. a.environment) attestation);
}

-- The decision, its scopes, its reason and its obligations, as they are.
abbrev pub reply_with : AgentSession → PolicyOutput → AuthorizeResponse
reply_with session output = record {
  decision = output.decision;
  effective_scopes = output.effective_scopes;
  reason = output.reason;
  decision_id = "dec_" +s session.trace_id;
  obligations = output.obligations;
}

module _ (settings : Settings) (env : Environment) (jwt : Jwt) (opa : Opa) where
  pub decide-asks :
      (body : AuthorizeRequest) (requested : List String) (session : AgentSession)
      (agent : AgentIdentity) (blueprint : AgentBlueprint) (attestation : Option RuntimeAttestation)
      → decide settings env jwt opa body requested session agent blueprint attestation
        ≡ adapter_evaluate opa (get_policy_adapter opa) (
            query_of env.uuid_str body.tool body.operation requested session agent blueprint
              attestation)
  unfolding decide authorize_tool_access
  decide-asks body requested session agent blueprint none = refl
  decide-asks body requested session agent blueprint (some a) = refl

  pub respond-replies :
      (session : AgentSession) (output : PolicyOutput)
      → respond settings env jwt opa session output ≡ reply_with session output
  unfolding respond
  respond-replies session output = refl
