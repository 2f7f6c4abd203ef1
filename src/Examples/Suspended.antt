-- ===== src/Examples/Suspended.antt =====
-- The demonstration of the suspended agent: its second session is always refused.
use agent_identity_lab.Prelude.{
  arith, ℕ, String, ◌+◌, ◌≡◌, ◌≢◌, refl, not, Option, none, some, List, [], ◌∷◌, inl, inr,
  Option-cases, ◌==◌,
}
use agent_identity_lab.Json.{Dict}
use agent_identity_lab.Common.{Settings, suspended}
use agent_identity_lab.Exec.{
  Error, http, value_error, assertion_error, Result, ok, err, Exec, ◌>>=◌,
}
use agent_identity_lab.Exec.Ensures.{Ensures, Ensures-or_raise, Ensures-raise_if}
use agent_identity_lab.Exec.Never.{Never, never_bind, Never-bind, Never-pure, Never-or_raise}
use agent_identity_lab.Models.{AgentIdentity}
use agent_identity_lab.Models.Table.{find-key, find-replace, find, replace}
use agent_identity_lab.Attestation.{Primitives, sign_attestation}
use agent_identity_lab.Tokens.{Jwt}
use agent_identity_lab.Policy.Opa.{Opa}
use agent_identity_lab.Database.{World, Environment, find_agent, save_agent, now, new_uuid}
use agent_identity_lab.Database.Transaction.{with_db, finish}
use agent_identity_lab.Identity.{StatusReply}
use agent_identity_lab.Identity.Agents
use agent_identity_lab.Identity.Agents.{admin, existing_agent, is_agent_active}
use agent_identity_lab.Identity.Sessions.{opener, service_create_session}
use agent_identity_lab.Identity.Sessions.Api
use agent_identity_lab.Identity.Sessions.Api.{SessionResponse}
use agent_identity_lab.Client.{
  AgentIdentityClient, Machine, SessionArguments, raise_for_status, call, generate_keypair,
  create_session, post_session, session_post, read_post, attestation_claims,
}
use agent_identity_lab.Examples.{
  Party, admin_key, create_blueprint, create_agent, create_blueprint_and_agent, suspend_agent,
}
use agent_identity_lab.Examples.Demos.{
  expect_refused, demo_session, after_suspension, suspended_agent,
}

raise_for_status-quiet : {A : Type 0} (r : Result A) → raise_for_status r ≢ err assertion_error
raise_for_status-quiet (ok a) h = cc h
raise_for_status-quiet (err (http status detail)) h = cc h
raise_for_status-quiet (err e) h = cc h

-- An error of a service is an `HTTPStatusError` to its client.
call-Never : {A : Type 0} (m : Exec World A) → Never assertion_error (call m)
unfolding call
call-Never m = record { at = λ w. raise_for_status-quiet (with_db m w).0 }

value_is_no_assertion : (m : _) → value_error m ≢ assertion_error
value_is_no_assertion m h = cc h

now-Never : (env : Environment) → Never assertion_error (now env)
now-Never env = record { at = λ w h. cc h }

new_uuid-Never : (env : Environment) → Never assertion_error (new_uuid env)
new_uuid-Never env = record { at = λ w h. cc h }

generate_keypair-Never :
    (env : Environment) (machine : Machine) (client : AgentIdentityClient)
    → Never assertion_error (generate_keypair env machine client)
unfolding generate_keypair
generate_keypair-Never env machine client = record { at = λ w h. cc h }

ruleset never_rules =
    (Never-bind, Never-pure, call-Never, now-Never, new_uuid-Never, generate_keypair-Never)

module _ (settings : Settings) (env : Environment) where
  create_blueprint_and_agent-Never :
      (machine : Machine) (slug_prefix name : String) (scopes : List String)
      (environments : Option (List String)) (owner : String)
      → Never assertion_error (
          create_blueprint_and_agent settings env machine slug_prefix name scopes environments
            owner)
  unfolding create_blueprint_and_agent create_blueprint create_agent
  create_blueprint_and_agent-Never machine slug_prefix name scopes environments owner =
      search never_rules depth 20

  create_session-Never :
      (prims : Primitives) (jwt : Jwt) (machine : Machine) (client : AgentIdentityClient)
      (args : SessionArguments)
      → Never assertion_error (create_session settings env prims jwt machine client args)
  unfolding create_session post_session
  create_session-Never prims jwt machine client args =
      search (never_rules, Never-or_raise, value_is_no_assertion) depth 20

  -- A suspension that returns leaves the agent suspended in the committed tables.
  suspend_agent-suspended :
      (id : ℕ) (w : World)
      → Ensures
          (Agents.suspend_agent settings env admin_key id w)
          (λ _ v. (a : AgentIdentity) × (find_agent id v.db ≡ some a) × (a.status ≡ suspended))
  unfolding Agents.suspend_agent admin existing_agent Agents.update save_agent
  suspend_agent-suspended id w =
      Ensures-raise_if R (not ("test-admin-key" == settings.admin_api_key)) _ _ w λ _.
        Ensures-or_raise R (find_agent id w.db) _ _ w λ a found.
          Ensures-raise_if R (not (is_agent_active a.status)) _ _ w λ _ reply returned.
            there a found (record a { status = suspended; suspended_at = some (env.time w.draws) })
              refl refl
    where
      R : StatusReply → World → Type 0
      R _ v = (a : AgentIdentity) × (find_agent id v.db ≡ some a) × (a.status ≡ suspended)

      there :
          (a : AgentIdentity)
          → find_agent id w.db ≡ some a
          → (b : AgentIdentity) → b.id ≡ a.id
          → b.status ≡ suspended
          → (c : AgentIdentity) × (find (λ r. r.id) id (replace (λ r. r.id) b w.db.agents) ≡ some c)
            × (c.status ≡ suspended)
      there a found b same is_suspended = (
        b,
        rw (find-replace (λ r. r.id) id b w.db.agents, found)
            (ground (arith, find-key (λ r. r.id) id a w.db.agents found)),
        is_suspended,
      )

  suspend-Never : (id : ℕ) → Never assertion_error (suspend_agent settings env id)
  unfolding suspend_agent
  suspend-Never id = call-Never _

  -- The same, as a client sees it.
  suspended_after :
      (id : ℕ) (w : World) (reply : StatusReply)
      → (suspend_agent settings env id w).0 ≡ ok reply
      → (a : AgentIdentity) × (find_agent id (suspend_agent settings env id w).1.durable ≡ some a)
        × (a.status ≡ suspended)
  unfolding suspend_agent call with_db
  suspended_after id w reply h = go _ _ (suspend_agent-suspended id (record w { db = w.durable })) h
    where
      R : StatusReply → World → Type 0
      R _ v = (a : AgentIdentity) × (find_agent id v.db ≡ some a) × (a.status ≡ suspended)

      go :
          (r : Result StatusReply) (v : World)
          → Ensures (r, v) R
          → raise_for_status (finish (r, v)).0 ≡ ok reply
          → (a : AgentIdentity) × (find_agent id (finish (r, v)).1.durable ≡ some a)
            × (a.status ≡ suspended)
      go (ok a) v known h = known a refl
      go (err e) v known h = absurd (raised e h)
        where
          raised : (e : Error) → raise_for_status {A = StatusReply} (err e) ≡ ok reply → ⊥
          raised (http status detail) h = cc h
          raised _ h = cc h

  module _ (prims : Primitives) (jwt : Jwt) (machine : Machine) where
    -- A client whose agent is suspended gets 400, or fails before it has sent a request.
    refused_for :
        (client : AgentIdentityClient) (args : SessionArguments) (id : ℕ) (a : AgentIdentity)
        (w : World)
        → env.parse_uuid args.agent_id ≡ some id
        → find_agent id w.durable ≡ some a
        → a.status ≡ suspended
        → expect_refused (create_session settings env prims jwt machine client args w).0
          ≢ err assertion_error
    unfolding create_session post_session call with_db read_post session_post Api.create_session
        service_create_session opener expect_refused
    refused_for client args id a w parses found gone = elim (Option-cases client.private_key) [
      | inl keyless ↦ rw keyless (λ h. cc h)
      | inr (key, holds) ↦ elim (Option-cases (sign_attestation prims claims key)) [
        | inl unsigned ↦ rw (holds, unsigned) (λ h. cc h)
        | inr (hex, signed) ↦ rw (holds, signed, parses, found, gone) (λ h. cc h)
      ]
    ]
      where
        claims : Dict
        claims =
            attestation_claims args (machine.isoformat (env.time w.draws))
              (env.uuid_str (env.uuid (w.draws + 1)))

    -- No run of the demonstration of the suspended agent ends in an AssertionError, if ids are read
    -- back from their texts: once the suspension has returned, the second session is refused
    -- with 400, whatever the services did before.
    pub suspended_agent-never_asserts :
        (opa : Opa) (w : World)
        → ((id : ℕ) → env.parse_uuid (env.uuid_str id) ≡ some id)
        → (suspended_agent settings env prims jwt opa machine w).0 ≢ err assertion_error
    unfolding suspended_agent after_suspension
    suspended_agent-never_asserts opa w read_back =
        never_bind assertion_error create _ w
          ((create_blueprint_and_agent-Never machine _ _ _ _ _).at w)
          λ party _.
            never_bind assertion_error (session party) (λ _. suspension party) (create w).1
              ((create_session-Never prims jwt machine _ _).at (create w).1)
              λ first _.
                never_bind assertion_error (suspend_agent settings env party.agent.id) _
                  (session party (create w).1).1
                  ((suspend-Never party.agent.id).at (session party (create w).1).1)
                  λ reply returned.
                    let (a, found, gone) = suspended_after party.agent.id _ reply returned in
                    refused_for party.sdk _ party.agent.id a _ (read_back party.agent.id) found gone
      where
        create : Exec World Party
        create =
            create_blueprint_and_agent settings env machine "demo-suspended" "Demo Suspended Agent"
              ("repo:read" ∷ []) none "demo_user"

        session : Party → Exec World SessionResponse
        session party =
            demo_session settings env prims jwt opa machine party (some "demo_user")
              ("repo:read" ∷ [])

        suspension : Party → Exec World (Unit {0})
        suspension party = suspend_agent settings env party.agent.id >>= λ _.
            after_suspension settings env prims jwt opa machine party
