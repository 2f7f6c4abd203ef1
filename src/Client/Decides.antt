-- ===== src/Client/Decides.antt =====
-- The client's authorize, for a session that it has just opened.
use agent_identity_lab.Prelude.{
  ap, sym, ℕ, ◌≤◌, ◌<◌, String, ◌≡◌, refl, false, some, List, ◌==◌, nat_str, ◌+s◌, lookup, is_some,
  subst, ◌∙◌,
}
use agent_identity_lab.Json.{arr, strs, to_strs-strs, truthy}
use agent_identity_lab.Common.{Settings}
use agent_identity_lab.Exec.{Result, ok, err, lift, pure, ◌>>=◌}
use agent_identity_lab.Exec.Ensures.{ok-injective}
use agent_identity_lab.Models.{AgentSession, AgentIdentity, AgentBlueprint, RuntimeAttestation}
use agent_identity_lab.Models.Table.{find_added}
use agent_identity_lab.Attestation.{Primitives}
use agent_identity_lab.Policy.{PolicyOutput}
use agent_identity_lab.Policy.Opa.{Opa, get_policy_adapter, adapter_evaluate, authorize_tool_access}
use agent_identity_lab.Identity.Authorization.Asked.{query_of, reply_with}
use agent_identity_lab.Tokens.{
  Jwt, timestamp, load_private_key, load_public_key, session_claims, validate_session_token,
}
use agent_identity_lab.Tokens.RoundTrip.{IsKeyPair, validate-issue}
use agent_identity_lab.Database.{
  World, Environment, Db, find_session, find_agent, find_blueprint, find_attestation,
}
use agent_identity_lab.Database.Transaction.{with_db, finish}
use agent_identity_lab.Identity.Authorization
use agent_identity_lab.Identity.Authorization.{
  AuthorizeRequest, AuthorizeResponse, list_of_strs, session_of, decide, respond, authorize_session,
}
use agent_identity_lab.Identity.Sessions.Api.{SessionResponse, session_response}
use agent_identity_lab.Client.{raise_for_status, call, authorize, SessionArguments}
use agent_identity_lab.Client.Opens.{IsServed}

abbrev pub blueprint_id : AgentBlueprint → String
blueprint_id b = b.slug +s ":v" +s nat_str b.version

-- The answer of the API for what the policy has said.
abbrev pub answered_with :
    Result PolicyOutput → (PolicyOutput → AuthorizeResponse) → Result AuthorizeResponse
answered_with (ok output) answer = ok (answer output)
answered_with (err e) answer = err e

listed : (ss : List String) → list_of_strs (arr (strs ss)) ≡ ok ss
listed ss = rw (list_of_strs, to_strs-strs ss) refl

relayed :
    (d : Result PolicyOutput) (answer : PolicyOutput → AuthorizeResponse) (w : World)
    → (finish ((lift d >>= λ output. pure (answer output)) w)).0 ≡ answered_with d answer
relayed (ok output) answer w = refl
relayed (err e) answer w = refl

module _ (settings : Settings) (env : Environment) (jwt : Jwt) (opa : Opa) where
  -- The rows that a token leads to, in the committed tables.
  pub record IsStored (token : String) (t : ℕ) (d : Db) (session : AgentSession)
      (agent : AgentIdentity) (blueprint : AgentBlueprint) (attestation : RuntimeAttestation)
      : Type 0 where
    pub blueprint_name : String
    pub issued : ℕ
    pub valid :
        validate_session_token jwt settings t token
        ≡ ok (session_claims jwt settings env.uuid_str issued session blueprint_name)
    pub named : (env.uuid_str session.id == "") ≡ false
    pub read_back : env.parse_uuid (env.uuid_str session.id) ≡ some session.id
    pub session_found : find_session session.id d ≡ some session
    pub live : is_some session.revoked_at ≡ false
    pub agent_found : find_agent session.agent_id d ≡ some agent
    pub blueprint_found : find_blueprint agent.blueprint_id d ≡ some blueprint
    pub attestation_found : find_attestation session.runtime_attestation_id d ≡ some attestation

  -- A token that leads to stored rows gets what the policy says of them.
  pub authorize-decides :
      (token tool operation : String) (w : World) (session : AgentSession) (agent : AgentIdentity)
      (blueprint : AgentBlueprint) (attestation : RuntimeAttestation)
      → IsStored token (env.time w.draws) w.durable session agent blueprint attestation
      → (authorize settings env jwt opa token tool operation w).0
        ≡ raise_for_status (
            answered_with
              (adapter_evaluate opa (get_policy_adapter opa) (
                query_of env.uuid_str tool operation session.effective_scopes session agent
                  blueprint
                  (some attestation)))
              (reply_with session))
  unfolding authorize call with_db Authorization.authorize authorize_session session_of
      session_claims lookup truthy decide authorize_tool_access respond
  authorize-decides token tool operation w session agent blueprint attestation s =
      rw
        (
          s.valid,
          s.named,
          s.read_back,
          s.session_found,
          s.live,
          s.agent_found,
          s.blueprint_found,
          s.attestation_found,
          listed session.effective_scopes,
        )
        (ap raise_for_status (relayed _ (reply_with session) _))

  module _ (prims : Primitives) where
    -- The session that a client has just opened, and what its token leads to.
    opened-IsStored :
        (args : SessionArguments) (id t : ℕ) (w v : World) (r : SessionResponse)
        (private_key public_key : String) (s : IsServed settings env prims jwt args id w r v)
        → (env.uuid_str r.id == "") ≡ false
        → env.parse_uuid (env.uuid_str r.id) ≡ some r.id
        → load_private_key jwt settings ≡ ok private_key
        → load_public_key jwt settings ≡ ok public_key
        → IsKeyPair jwt private_key public_key settings.jwt_algorithm (
            session_claims jwt settings env.uuid_str s.opened.token.0 s.answer.0
              (blueprint_id s.opened.who.blueprint))
        → timestamp s.opened.token.0 ≤ timestamp t
        → timestamp t < timestamp r.expires_at
        → IsStored r.token t v.durable s.answer.0 s.opened.who.agent s.opened.who.blueprint
            s.opened.attestation
    unfolding session_response
    opened-IsStored args id t w v r private_key public_key s named read_back private_loads
          public_loads pair past alive =
        let o = s.opened in
        let (issued, issuing) = o.token in
        let same_id = ap (λ q. q.id) s.response in
        let (token, token_issued, valid) =
          validate-issue jwt settings env.uuid_str issued t s.answer.0
            (blueprint_id o.who.blueprint) private_key public_key private_loads public_loads pair
            past (rw (ap (λ q. q.expires_at) s.response) at alive) in
        let same_token : token ≡ r.token =
          ok-injective _ _ (sym token_issued ∙ issuing) ∙ sym (ap (λ q. q.token) s.response) in
        let claims =
          session_claims jwt settings env.uuid_str issued s.answer.0
            (blueprint_id o.who.blueprint) in
        let tables = s.committed ∙ o.stored in
        record {
          blueprint_name = blueprint_id o.who.blueprint;
          issued = issued;
          valid = subst (λ x. validate_session_token jwt settings t x ≡ ok claims) same_token valid;
          named = rw same_id at named;
          read_back = rw same_id at read_back;
          session_found = rw tables (find_added (λ q. q.id) s.answer.0 _ o.new_session);
          live = rw o.terms.live refl;
          agent_found = rw (tables, o.terms.agent) o.opener.agent_found;
          blueprint_found = rw tables o.opener.blueprint_found;
          attestation_found =
              rw (tables, o.attested) (find_added (λ q. q.id) o.attestation _ o.new_attestation);
        }

    -- The client's authorize for the token that its create_session has just got is answered with the
    -- decision, the scopes, the reason and the obligations that the adapter in use reaches for the
    -- session, its agent, its blueprint, its attestation and the scopes that were requested, or
    -- with its failure: under keys that belong together, with ids that are read back from
    -- their texts, and before the second in which the session expires.
    pub opened-decides :
        (args : SessionArguments) (id : ℕ) (tool operation : String) (w v : World)
        (r : SessionResponse) (private_key public_key : String)
        (s : IsServed settings env prims jwt args id w r v)
        → (env.uuid_str r.id == "") ≡ false
        → env.parse_uuid (env.uuid_str r.id) ≡ some r.id
        → load_private_key jwt settings ≡ ok private_key
        → load_public_key jwt settings ≡ ok public_key
        → IsKeyPair jwt private_key public_key settings.jwt_algorithm (
            session_claims jwt settings env.uuid_str s.opened.token.0 s.answer.0
              (blueprint_id s.opened.who.blueprint))
        → timestamp s.opened.token.0 ≤ timestamp (env.time v.draws)
        → timestamp (env.time v.draws) < timestamp r.expires_at
        → (authorize settings env jwt opa r.token tool operation v).0
          ≡ raise_for_status (
              answered_with
                (adapter_evaluate opa (get_policy_adapter opa) (
                  query_of env.uuid_str tool operation args.requested_scopes s.answer.0
                    s.opened.who.agent s.opened.who.blueprint
                    (some s.opened.attestation)))
                (reply_with s.answer.0))
    opened-decides args id tool operation w v r private_key public_key s named read_back
          private_loads public_loads pair past alive =
        let stored =
          opened-IsStored args id (env.time v.draws) w v r private_key public_key s named read_back
            private_loads public_loads pair past alive in
        rw (← (s.opened.terms.scopes ∙ s.scopes)) (
          authorize-decides r.token tool operation v s.answer.0 s.opened.who.agent
            s.opened.who.blueprint s.opened.attestation stored)
