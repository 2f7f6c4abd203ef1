-- ===== src/Client/Allowed.antt =====
-- Which requests the client's authorize allows for a session that it has just opened, when the
-- Python policy decides.
use agent_identity_lab.Prelude.{
  ℕ, ◌≤◌, ◌<◌, String, ◌≡◌, ◌≢◌, ◌↔◌, ◌⊎◌, refl, ap, sym, ◌∙◌, inl, inr, true, false, some, List,
  [], ◌==◌, ◌+s◌, lookup, elem,
}
use agent_identity_lab.Common.{
  Settings, PolicyDecision, AgentStatus, BlueprintStatus, agent_status_str, blueprint_status_str,
}
use agent_identity_lab.Exec.{http, Result, ok, err}
use agent_identity_lab.Models.{AgentSession, AgentIdentity, AgentBlueprint, RuntimeAttestation}
use agent_identity_lab.Attestation.{Primitives}
use agent_identity_lab.Policy.{PolicyOutput}
use agent_identity_lab.Policy.Tools.{tool_scope_map}
use agent_identity_lab.Policy.Python.{needs_write, required_scopes, tool_key}
use agent_identity_lab.Policy.Python.Permits.{evaluate-allow_iff}
use agent_identity_lab.Policy.Opa.{Opa, get_policy_adapter, adapter_evaluate}
use agent_identity_lab.Policy.Opa.Choice.{adapter_evaluate-allow_iff}
use agent_identity_lab.Tokens.{Jwt, timestamp, load_private_key, load_public_key, session_claims}
use agent_identity_lab.Tokens.RoundTrip.{IsKeyPair}
use agent_identity_lab.Database.{World, Environment}
use agent_identity_lab.Identity.Agents.{is_agent_active, is_blueprint_active}
use agent_identity_lab.Identity.Authorization.{AuthorizeResponse}
use agent_identity_lab.Identity.Authorization.Asked.{query_of, reply_with}
use agent_identity_lab.Identity.Sessions.Api.{SessionResponse}
use agent_identity_lab.Client.{raise_for_status, authorize, SessionArguments}
use agent_identity_lab.Client.Opens.{IsServed}
use agent_identity_lab.Client.Decides.{blueprint_id, answered_with, opened-decides}

-- The blueprint covers the operation: the table of scopes has it, it is no write of a research
-- agent, the environment is approved or none is named, and one of the requested scopes is the
-- blueprint's and the operation's.
pub record Covers (blueprint : AgentBlueprint) (environment : String) (requested : List String)
    (tool operation : String) : Type 0 where
  pub required : List String
  pub known : lookup (tool +s "." +s operation) tool_scope_map ≡ some required
  pub no_research_write : (blueprint.slug ≢ "research-agent") ⊎ (needs_write required ≡ false)
  pub approved :
      (blueprint.approved_environments ≡ [])
      ⊎ (elem environment blueprint.approved_environments ≡ true)
  pub scope : String
  pub in_request : elem scope requested ≡ true
  pub in_blueprint : elem scope blueprint.max_scopes ≡ true
  pub in_tool : elem scope required ≡ true

agent_str : (s : AgentStatus) → is_agent_active s ≡ true → some (agent_status_str s) ≡ some "active"
agent_str AgentStatus.active h = refl
agent_str _ h = absurd (cc h)

blueprint_str :
    (s : BlueprintStatus)
    → is_blueprint_active s ≡ true
    → some (blueprint_status_str s) ≡ some "active"
blueprint_str BlueprintStatus.active h = refl
blueprint_str _ h = absurd (cc h)

-- What the client sees of an output that the policy has reached, and only of one.
answered_iff :
    (d : Result PolicyOutput) (answer : PolicyOutput → AuthorizeResponse)
    → ((out : PolicyOutput) → (answer out).decision ≡ out.decision)
    → ((out : PolicyOutput) × (d ≡ ok out) × (out.decision ≡ PolicyDecision.allow)) ↔ (
        (a : AuthorizeResponse) × (raise_for_status (answered_with d answer) ≡ ok a)
        × (a.decision ≡ PolicyDecision.allow))
answered_iff d answer same = (
  λ (out, decided, allowed). (answer out, rw decided refl, same out ∙ allowed),
  λ (a, seen, allowed). from d a seen allowed,
)
  where
    from :
        (d : Result PolicyOutput) (a : AuthorizeResponse)
        → raise_for_status (answered_with d answer) ≡ ok a
        → a.decision ≡ PolicyDecision.allow
        → (out : PolicyOutput) × (d ≡ ok out) × (out.decision ≡ PolicyDecision.allow)
    from (ok out) a seen allowed =
        let given : answer out ≡ a = cc seen in
        (out, refl, sym (same out) ∙ (ap (λ r. r.decision) given ∙ allowed))
    from (err (http status detail)) a seen allowed = absurd (cc seen)
    from (err e) a seen allowed = absurd (cc seen)

module _ (settings : Settings) (env : Environment) (jwt : Jwt) (opa : Opa)
    (ill : opa.health_status ≢ some 200) where
  query-Covers_iff :
      (tool operation : String) (session : AgentSession) (agent : AgentIdentity)
      (blueprint : AgentBlueprint) (attestation : RuntimeAttestation)
      → (tool == "") ≡ false
      → (operation == "") ≡ false
      → is_agent_active agent.status ≡ true
      → is_blueprint_active blueprint.status ≡ true
      → ((out : PolicyOutput) × (adapter_evaluate opa (get_policy_adapter opa) (
              query_of env.uuid_str tool operation session.effective_scopes session agent blueprint
                (some attestation))
            ≡ ok out)
          × (out.decision ≡ PolicyDecision.allow))
        ↔ Covers blueprint attestation.environment session.effective_scopes tool operation
  unfolding required_scopes tool_key
  query-Covers_iff tool operation session agent blueprint attestation tool_given operation_given
        active standing =
      (
        λ allows. elim ((adapter_evaluate-allow_iff opa _).0 allows) [
          | inl (healthy, _) ↦ absurd (ill healthy)
          | inr (_, permitted) ↦
              let (required, eligible, (s, granted)) = (evaluate-allow_iff _).0 permitted in
              record {
                required = required;
                known = rw (tool_given, operation_given) at (eligible.known);
                no_research_write = elim eligible.no_research_write [
                  | inl other ↦ inl (λ same. other (ap some same))
                  | inr reads ↦ inr reads
                ];
                approved = eligible.environment;
                scope = s;
                in_request = granted.requested;
                in_blueprint = granted.by_blueprint;
                in_tool = granted.by_tool;
              }
        ],
        λ c. (adapter_evaluate-allow_iff opa _).1 (
            inr (
              ill,
              (evaluate-allow_iff _).1 (
                c.required,
                record {
                  agent_active = agent_str agent.status active;
                  blueprint_active = blueprint_str blueprint.status standing;
                  known = rw (tool_given, operation_given) c.known;
                  no_research_write = elim c.no_research_write [
                    | inl other ↦ inl (λ same. other (cc same))
                    | inr reads ↦ inr reads
                  ];
                  environment = c.approved;
                },
                (
                  c.scope,
                  record {
                    requested = c.in_request;
                    by_agent = c.in_request;
                    by_blueprint = c.in_blueprint;
                    by_tool = c.in_tool;
                    by_user = inl refl;
                  },
                ),
              ),
            )),
      )

  -- Where the policy agent is not healthy, the client's authorize for the token that its
  -- create_session has just got, for a tool and an operation that are not empty, is answered with
  -- allow exactly when the blueprint covers the operation in the environment that the client has
  -- named with one of the scopes that it has requested: under keys that belong together, with ids
  -- that are read back from their texts, and before the second in which the session expires.
  pub opened-allowed_iff :
      (prims : Primitives) (args : SessionArguments) (id : ℕ) (tool operation : String)
      (w v : World) (r : SessionResponse) (private_key public_key : String)
      (s : IsServed settings env prims jwt args id w r v)
      → (tool == "") ≡ false
      → (operation == "") ≡ false
      → (env.uuid_str r.id == "") ≡ false
      → env.parse_uuid (env.uuid_str r.id) ≡ some r.id
      → load_private_key jwt settings ≡ ok private_key
      → load_public_key jwt settings ≡ ok public_key
      → IsKeyPair jwt private_key public_key settings.jwt_algorithm (
          session_claims jwt settings env.uuid_str s.opened.token.0 s.answer.0
            (blueprint_id s.opened.who.blueprint))
      → timestamp s.opened.token.0 ≤ timestamp (env.time v.draws)
      → timestamp (env.time v.draws) < timestamp r.expires_at
      → ((a : AuthorizeResponse) × ((authorize settings env jwt opa r.token tool operation v).0
            ≡ ok a)
          × (a.decision ≡ PolicyDecision.allow))
        ↔ Covers s.opened.who.blueprint args.environment args.requested_scopes tool operation
  opened-allowed_iff prims args id tool operation w v r private_key public_key s tool_given
        operation_given named read_back private_loads public_loads pair past alive =
      let o = s.opened in
      let covered =
        query-Covers_iff tool operation s.answer.0 o.who.agent o.who.blueprint o.attestation
          tool_given operation_given o.opener.agent_active o.opener.blueprint_active in
      let seen =
        answered_iff
          (adapter_evaluate opa (get_policy_adapter opa) (
            query_of env.uuid_str tool operation s.answer.0.effective_scopes s.answer.0 o.who.agent
              o.who.blueprint (some o.attestation)))
          (reply_with s.answer.0) (λ out. refl) in
      let attested : o.attestation.environment ≡ args.environment =
        cc (sym o.recorded.environment ∙ s.environment) in
      rw
        (
          opened-decides settings env jwt opa prims args id tool operation w v r private_key
              public_key s named read_back private_loads public_loads pair past alive,
          ← (o.terms.scopes ∙ s.scopes),
          ← attested,
        )
        (λ a. covered.0 (seen.1 a), λ c. seen.0 (covered.1 c))
