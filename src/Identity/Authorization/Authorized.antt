-- ===== src/Identity/Authorization/Authorized.antt =====
-- What an answer of POST /v1/authorize rests on, and that a revoked session has none.
use agent_identity_lab.Prelude.{
  ℕ, ◌+◌, String, ◌≡◌, refl, sym, subst, ap, ◌∙◌, true, false, not, Option, none, some, List,
  is_some,
}
use agent_identity_lab.Json.{Json, Dict, str, as_str, get as get_value, truthy}
use agent_identity_lab.Common.{Settings}
use agent_identity_lab.Exec.{value_error, Result, ok, err}
use agent_identity_lab.Exec.Ensures.{
  Ensures, Ensures-ok, Ensures-bind, Ensures-lift, Ensures-or_raise, Ensures-raise_if, Ensures-if,
  of_not,
}
use agent_identity_lab.Models.{AgentIdentity, AgentBlueprint, AgentSession}
use agent_identity_lab.Policy.{PolicyOutput}
use agent_identity_lab.Policy.Opa.{Opa, get_policy_adapter, adapter_evaluate}
use agent_identity_lab.Tokens.{Jwt, validate_session_token}
use agent_identity_lab.Database.{
  World, Environment, find_session, find_agent, find_blueprint, find_attestation,
}
use agent_identity_lab.Identity.Authorization.{
  AuthorizeRequest, AuthorizeResponse, token_handler, list_of_strs, session_of, decide,
  authorize_session, authorize,
}
use agent_identity_lab.Identity.Authorization.Asked.{
  query_of, reply_with, decide-asks, respond-replies,
}

as_str-str : (v : Json) (t : String) → as_str v ≡ some t → v ≡ str t
as_str-str (str s) t h = cc h
as_str-str _ t h = absurd (cc h)

module _ (settings : Settings) (env : Environment) (jwt : Jwt) (opa : Opa) where
  -- The session is not revoked, its agent and the agent's blueprint are there, the policy has been
  -- asked about them, the attestation and the scopes of the token, and the answer is its output.
  pub record IsDecided (body : AuthorizeRequest) (claims : Dict) (session : AgentSession)
      (w : World) (answer : AuthorizeResponse) : Type 0 where
    pub live : is_some session.revoked_at ≡ false
    pub agent : AgentIdentity
    pub agent_found : find_agent session.agent_id w.db ≡ some agent
    pub blueprint : AgentBlueprint
    pub blueprint_found : find_blueprint agent.blueprint_id w.db ≡ some blueprint
    pub requested : List String
    pub asked : list_of_strs (get_value "scopes" claims) ≡ ok requested
    pub result : PolicyOutput
    pub decided :
        adapter_evaluate opa (get_policy_adapter opa) (
          query_of env.uuid_str body.tool body.operation requested session agent blueprint
            (find_attestation session.runtime_attestation_id w.db))
        ≡ ok result
    pub answered : answer ≡ reply_with session result

  authorize_session-IsDecided :
      (body : AuthorizeRequest) (claims : Dict) (session : AgentSession) (w : World)
      → Ensures
          (authorize_session settings env jwt opa body claims session w)
          (λ answer v. IsDecided body claims session w answer × (v ≡ w))
  unfolding authorize_session
  authorize_session-IsDecided body claims session w =
      Ensures-raise_if Q (is_some session.revoked_at) _ _ w λ live.
        Ensures-or_raise Q (find_agent session.agent_id w.db) _ _ w λ agent agent_found.
          Ensures-or_raise Q (find_blueprint agent.blueprint_id w.db) _ _ w
            λ blueprint blueprint_found.
              Ensures-lift Q (list_of_strs (get_value "scopes" claims)) _ w λ requested asked.
                Ensures-lift Q
                  (decide settings env jwt opa body requested session agent blueprint
                    (find_attestation session.runtime_attestation_id w.db))
                  _ w
                  λ result decided. Ensures-ok Q _ w (
                    record {
                      live = live;
                      agent = agent;
                      agent_found = agent_found;
                      blueprint = blueprint;
                      blueprint_found = blueprint_found;
                      requested = requested;
                      asked = asked;
                      result = result;
                      decided =
                          sym (
                            decide-asks settings env jwt opa body requested session agent blueprint
                              (find_attestation session.runtime_attestation_id w.db))
                          ∙ decided;
                      answered = respond-replies settings env jwt opa session result;
                    },
                    refl,
                  )
    where
      Q : AuthorizeResponse → World → Type 0
      Q answer v = IsDecided body claims session w answer × (v ≡ w)

  -- The session that a token names.
  pub record Names (claims : Dict) (w : World) (session : AgentSession) : Type 0 where
    pub jti : String
    pub given : get_value "jti" claims ≡ str jti
    pub nonempty : truthy (str jti) ≡ true
    pub id : ℕ
    pub parsed : env.parse_uuid jti ≡ some id
    pub found : find_session id w.db ≡ some session

  session_of-Names :
      (claims : Dict) (w : World)
      → Ensures
          (session_of settings env jwt opa (get_value "jti" claims) w)
          (λ o v. (v ≡ w) × ((s : AgentSession) → o ≡ some s → Names claims w s))
  unfolding session_of
  session_of-Names claims w =
      Ensures-if Q (not (truthy jti)) _ _ w
        (λ empty. Ensures-ok Q none w (refl, λ s e. absurd (cc e)))
        (λ nonempty. Ensures-or_raise Q (as_str jti) _ _ w λ written is_text.
          Ensures-or_raise Q (env.parse_uuid written) _ _ w λ id parsed.
            Ensures-ok Q (find_session id w.db) w (
              refl,
              λ s found. record {
                jti = written;
                given = as_str-str jti written is_text;
                nonempty =
                    subst (λ v. truthy v ≡ true) (as_str-str jti written is_text)
                      (of_not (truthy jti) nonempty);
                id = id;
                parsed = parsed;
                found = found;
              },
            ))
    where
      jti : Json
      jti = get_value "jti" claims

      Q : Option AgentSession → World → Type 0
      Q o v = (v ≡ w) × ((s : AgentSession) → o ≡ some s → Names claims w s)

  -- What an answer of POST /v1/authorize rests on: the token's claims, the session that they
  -- name, and the decision.
  pub record IsAuthorized (body : AuthorizeRequest) (w : World) (answer : AuthorizeResponse)
      : Type 0 where
    pub claims : Dict
    pub valid :
        validate_session_token jwt settings (env.time w.draws) body.session_token ≡ ok claims
    pub session : AgentSession
    pub named : Names claims w session
    pub decision : IsDecided body claims session w answer

  let_through : (r : Result Dict) (c : Dict) → token_handler r ≡ ok c → r ≡ ok c
  let_through (ok a) c h = h
  let_through (err (value_error m)) c h = absurd (cc h)
  let_through (err e) c h = absurd (cc h)

  authorize-Ensures :
      (body : AuthorizeRequest) (w : World)
      → Ensures
          (authorize settings env jwt opa body w)
          (λ answer v. IsAuthorized body w answer × (v ≡ record w { draws = w.draws + 1 }))
  unfolding authorize
  authorize-Ensures body w = Ensures-lift Q _ _ later λ claims valid.
      Ensures-bind (λ o v. (v ≡ later) × ((s : AgentSession) → o ≡ some s → Names claims later s)) Q
        (session_of settings env jwt opa (get_value "jti" claims)) _ later
        (session_of-Names claims later)
        λ found (same, names). Ensures-or_raise Q found _ _ _ λ session here answer e.
          let (decision, unchanged) = authorize_session-IsDecided body claims session _ answer e in
          let n = names session here in
          let d = subst (λ v. IsDecided body claims session v answer) same decision in
          (
            record {
              claims = claims;
              valid = let_through _ claims valid;
              session = session;
              named = record {
                jti = n.jti;
                given = n.given;
                nonempty = n.nonempty;
                id = n.id;
                parsed = n.parsed;
                found = n.found;
              };
              decision = record {
                live = d.live;
                agent = d.agent;
                agent_found = d.agent_found;
                blueprint = d.blueprint;
                blueprint_found = d.blueprint_found;
                requested = d.requested;
                asked = d.asked;
                result = d.result;
                decided = d.decided;
                answered = d.answered;
              };
            },
            unchanged ∙ same,
          )
    where
      later : World
      later = record w { draws = w.draws + 1 }

      Q : AuthorizeResponse → World → Type 0
      Q answer v = IsAuthorized body w answer × (v ≡ later)

  -- POST /v1/authorize answers only for a token that the validator lets through, whose `jti` is
  -- the id of a stored session that is not revoked, whose agent and blueprint are stored; the
  -- adapter in use has then reached an output for these rows, the stored attestation, the tool, the
  -- operation and the scopes of the token, the answer has the decision, the scopes, the reason and
  -- the obligations of this output, and no table changes.
  pub authorize-IsAuthorized :
      (body : AuthorizeRequest) (w v : World) (answer : AuthorizeResponse)
      → authorize settings env jwt opa body w ≡ (ok answer, v)
      → IsAuthorized body w answer × (v.db ≡ w.db)
  authorize-IsAuthorized body w v answer h =
      let (a, e) = authorize-Ensures body w answer (ap (λ p. p.0) h) in
      (a, ap (λ p. p.1.db) (sym h) ∙ ap (λ u. u.db) e)
