-- ===== src/Identity/Authorization.antt =====
-- api/authorization.py: POST /v1/authorize.
pub mod Asked
pub mod Authorized
pub mod Refused
pub mod Permitted
use agent_identity_lab.Prelude.{
  String, not, ◌==◌, Option, none, some, List, [], is_some, get_or, ◌+s◌, if◌then◌else◌,
}
use agent_identity_lab.Json.{Json, Dict, arr, as_str, to_strs, get as get_value, truthy}
use agent_identity_lab.Common.{
  Settings, Message, text, PolicyDecision, agent_status_str, blueprint_status_str,
}
use agent_identity_lab.Exec.{
  http, value_error, type_error, Result, ok, err, Exec, pure, raise_if, or_raise, lift, ◌>>=◌, ◌>>◌,
}
use agent_identity_lab.Models.{AgentIdentity, AgentBlueprint, AgentSession, RuntimeAttestation}
use agent_identity_lab.Policy.{PolicyOutput, RuntimeFacts}
use agent_identity_lab.Policy.Opa.{Opa, get_policy_adapter, authorize_tool_access}
use agent_identity_lab.Tokens.{Jwt, validate_session_token}
use agent_identity_lab.Database.{
  World, Environment, now, get, find_session, find_agent, find_blueprint, find_attestation,
}

pub record AuthorizeRequest : Type 0 where
  pub session_token : String
  pub tool : String
  pub operation : String
  pub resource : Dict

pub record AuthorizeResponse : Type 0 where
  pub decision : PolicyDecision
  pub effective_scopes : List String
  pub reason : Message
  pub decision_id : String
  pub obligations : List String

-- `except ValueError as exc: raise HTTPException(401, str(exc))`
abbrev pub token_handler {ℓ} : {A : Type ℓ} → Result A → Result A
token_handler (ok a) = ok a
token_handler (err (value_error m)) = err (http 401 m)
token_handler (err e) = err e

-- The facts of the policy query.
abbrev pub runtime_of : AgentSession → Option RuntimeAttestation → RuntimeFacts
runtime_of session none = record {
  environment = some "";
  host_id = some "";
  framework = some "";
  framework_version = some "";
  model_id = some session.model_id;
  prompt_version = some session.prompt_version;
}
runtime_of session (some a) = record {
  environment = some a.environment;
  host_id = some a.host_id;
  framework = some a.framework;
  framework_version = some a.framework_version;
  model_id = some a.model_id;
  prompt_version = some a.prompt_version;
}

abbrev pub environment_or_default : RuntimeFacts → String
environment_or_default runtime =
    let name = get_or runtime.environment "" in if name == "" then "development" else name

-- `claims.get("scopes", [])`: the validator let only a list through. The issuer writes texts only;
-- a list with another element, which the source would pass on, raises here.
abbrev pub list_of_strs : Json → Result (List String)
list_of_strs (arr vs) = elim (to_strs vs) [ none ↦ err type_error | some ss ↦ ok ss ]
list_of_strs v = err type_error

abbrev pub unauthorized_if_missing : {A : Type 0} → Option A → String → Exec World A
unauthorized_if_missing found detail = or_raise found (http 401 (text detail))

module _ (settings : Settings) (env : Environment) (jwt : Jwt) (opa : Opa) where
  -- The session of a `jti`: an empty one finds nothing; one that is no UUID raises `ValueError`,
  -- and one that is no text `AttributeError`, past every handler.
  unfoldable pub session_of : Json → Exec World (Option AgentSession)
  session_of jti = if not (truthy jti) then pure none else do
    written ← or_raise (as_str jti) type_error
    id ←
        or_raise (env.parse_uuid written)
          (value_error (text "badly formed hexadecimal UUID string"))
    get find_session id

  -- The policy query for the rows that were found.
  unfoldable pub decide :
      AuthorizeRequest
      → List String
      → AgentSession
      → AgentIdentity
      → AgentBlueprint
      → Option RuntimeAttestation
      → Result PolicyOutput
  decide body requested session agent blueprint attestation =
      authorize_tool_access opa (get_policy_adapter opa)
        (record {
          id = some (env.uuid_str agent.id);
          status = some (agent_status_str agent.status);
          scopes = some session.effective_scopes;
        })
        (record {
          id = some (env.uuid_str blueprint.id);
          slug = some blueprint.slug;
          status = some (blueprint_status_str blueprint.status);
          max_scopes = some blueprint.max_scopes;
          approved_environments = some blueprint.approved_environments;
          approved_models = some blueprint.approved_models;
        })
        (record { id = some (get_or session.acting_user_id ""); scopes = some [] })
        (record {
          id = some (env.uuid_str session.id);
          model_id = some session.model_id;
          trace_id = some session.trace_id;
        })
        (runtime_of session attestation) body.tool body.operation requested
        (environment_or_default (runtime_of session attestation))

  unfoldable pub respond : AgentSession → PolicyOutput → AuthorizeResponse
  respond session result = record {
    decision = result.decision;
    effective_scopes = result.effective_scopes;
    reason = result.reason;
    decision_id = "dec_" +s session.trace_id;
    obligations = result.obligations;
  }

  -- From the session on.
  unfoldable pub authorize_session :
      AuthorizeRequest → Dict → AgentSession → Exec World AuthorizeResponse
  authorize_session body claims session = do
    raise_if (is_some session.revoked_at) (http 401 (text "Session has been revoked"))
    found_agent ← get find_agent session.agent_id
    agent ← unauthorized_if_missing found_agent "Agent not found"
    found_blueprint ← get find_blueprint agent.blueprint_id
    blueprint ← unauthorized_if_missing found_blueprint "Blueprint not found"
    attestation ← get find_attestation session.runtime_attestation_id
    requested ← lift (list_of_strs (get_value "scopes" claims))
    result ← lift (decide body requested session agent blueprint attestation)
    pure (respond session result)

  unfoldable pub authorize : AuthorizeRequest → Exec World AuthorizeResponse
  authorize body = do
    t ← now env
    claims ← lift (token_handler (validate_session_token jwt settings t body.session_token))
    found ← session_of (get_value "jti" claims)
    session ← unauthorized_if_missing found "Session not found"
    authorize_session body claims session
