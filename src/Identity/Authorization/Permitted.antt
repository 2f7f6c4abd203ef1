-- ===== src/Identity/Authorization/Permitted.antt =====
-- When the Python policy decides, an answer to allow means that every party agrees.
use agent_identity_lab.Prelude.{
  String, ◌≡◌, ◌≢◌, refl, ap, sym, ◌∙◌, ◌⊎◌, inl, inr, true, Option, some, List, [], elem,
}
use agent_identity_lab.Common.{
  Settings, PolicyDecision, AgentStatus, BlueprintStatus, agent_status_str, blueprint_status_str,
}
use agent_identity_lab.Exec.{ok}
use agent_identity_lab.Models.{AgentIdentity, AgentBlueprint, AgentSession, RuntimeAttestation}
use agent_identity_lab.Policy.{PolicyOutput}
use agent_identity_lab.Policy.Python.Permits.{evaluate-allow_iff}
use agent_identity_lab.Policy.Opa.{Opa, get_policy_adapter, adapter_evaluate}
use agent_identity_lab.Policy.Opa.Choice.{adapter_evaluate-allow_iff}
use agent_identity_lab.Tokens.{Jwt}
use agent_identity_lab.Database.{World, Environment, find_attestation}
use agent_identity_lab.Identity.Authorization.{AuthorizeRequest, AuthorizeResponse, authorize}
use agent_identity_lab.Identity.Authorization.Asked.{attested, query_of}
use agent_identity_lab.Identity.Authorization.Authorized.{IsAuthorized, authorize-IsAuthorized}

agent_active :
    (s : AgentStatus) → some (agent_status_str s) ≡ some "active" → s ≡ AgentStatus.active
agent_active AgentStatus.active h = refl
agent_active _ h = absurd (cc h)

blueprint_active :
    (s : BlueprintStatus)
    → some (blueprint_status_str s) ≡ some "active"
    → s ≡ BlueprintStatus.active
blueprint_active BlueprintStatus.active h = refl
blueprint_active _ h = absurd (cc h)

-- The agent and the blueprint are active, the attested environment is approved or the blueprint
-- names none, and one scope is in the token, in the session and within the blueprint's.
pub record IsPermitted (requested : List String) (session : AgentSession) (agent : AgentIdentity)
    (blueprint : AgentBlueprint) (attestation : Option RuntimeAttestation) : Type 0 where
  pub agent_is_active : agent.status ≡ AgentStatus.active
  pub blueprint_is_active : blueprint.status ≡ BlueprintStatus.active
  pub environment :
      (blueprint.approved_environments ≡ [])
      ⊎ (elem (attested (λ a. a.environment) attestation) blueprint.approved_environments ≡ true)
  pub scope : String
  pub in_token : elem scope requested ≡ true
  pub in_session : elem scope session.effective_scopes ≡ true
  pub in_blueprint : elem scope blueprint.max_scopes ≡ true

module _ (settings : Settings) (env : Environment) (jwt : Jwt) (opa : Opa)
    (ill : opa.health_status ≢ some 200) where
  decide-IsPermitted :
      (body : AuthorizeRequest) (requested : List String) (session : AgentSession)
      (agent : AgentIdentity) (blueprint : AgentBlueprint) (attestation : Option RuntimeAttestation)
      (result : PolicyOutput)
      → adapter_evaluate opa (get_policy_adapter opa) (
          query_of env.uuid_str body.tool body.operation requested session agent blueprint
            attestation)
        ≡ ok result
      → result.decision ≡ PolicyDecision.allow
      → IsPermitted requested session agent blueprint attestation
  decide-IsPermitted body requested session agent blueprint attestation result decided allowed =
      elim ((adapter_evaluate-allow_iff opa _).0 (result, decided, allowed)) [
        | inl (healthy, _) ↦ absurd (ill healthy)
        | inr (_, permitted) ↦
            let (required, eligible, (s, granted)) = (evaluate-allow_iff _).0 permitted in
            record {
              agent_is_active = agent_active agent.status eligible.agent_active;
              blueprint_is_active = blueprint_active blueprint.status eligible.blueprint_active;
              environment = eligible.environment;
              scope = s;
              in_token = granted.requested;
              in_session = granted.by_agent;
              in_blueprint = granted.by_blueprint;
            }
      ]

  -- Where the policy agent is not healthy, POST /v1/authorize answers allow only if the session
  -- of the token is not revoked, its agent and the agent's blueprint are active, the attested
  -- environment is approved or the blueprint names none, and some scope is in the token, in the
  -- session and in the blueprint.
  pub authorize-IsPermitted :
      (body : AuthorizeRequest) (w v : World) (answer : AuthorizeResponse)
      → authorize settings env jwt opa body w ≡ (ok answer, v)
      → answer.decision ≡ PolicyDecision.allow
      → (a : IsAuthorized settings env jwt opa body w answer) × IsPermitted a.decision.requested
          a.session a.decision.agent a.decision.blueprint
          (find_attestation a.session.runtime_attestation_id w.db)
  authorize-IsPermitted body w v answer h allowed =
      let (a, _) = authorize-IsAuthorized settings env jwt opa body w v answer h in
      let d = a.decision in
      (
        a,
        decide-IsPermitted body d.requested a.session d.agent d.blueprint _ d.result d.decided
            (ap (λ r. r.decision) (sym d.answered) ∙ allowed),
      )
