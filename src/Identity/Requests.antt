-- ===== src/Identity/Requests.antt =====
-- The requests to the Identity API that change state, as one type, and a run of requests, each in
-- its own transaction.
pub mod Permanence
pub mod Unmoved
pub mod Registry
pub mod Moves
pub mod Enrolled
pub mod Refinement
pub mod Revoked
pub mod Unauthorized
use agent_identity_lab.Prelude.{ℕ, String, Option, List, [], ◌∷◌}
use agent_identity_lab.Common.{Settings}
use agent_identity_lab.Exec.{Result, ok, err, Exec}
use agent_identity_lab.Attestation.{Primitives}
use agent_identity_lab.Tokens.{Jwt}
use agent_identity_lab.Database.{World, Environment}
use agent_identity_lab.Database.Transaction.{with_db}
use agent_identity_lab.Identity.Agents
use agent_identity_lab.Identity.Agents.{
  AgentCreate, create_agent, activate_agent, suspend_agent, revoke_agent, rotate_key,
}
use agent_identity_lab.Identity.Sessions.{SessionCreateRequest}
use agent_identity_lab.Identity.Sessions.Api.{create_session, revoke_session}
use agent_identity_lab.Identity.Delegations.{DelegationCreate, create_delegation, revoke_delegation}
use agent_identity_lab.Identity.Blueprints.{
  BlueprintCreate, BlueprintUpdate, create_blueprint, update_blueprint, activate_blueprint,
  deactivate_blueprint,
}

-- A route and what the client sends; the first argument is the admin key of the request.
pub data Request : Type 0 where
  post_agent : Option String → AgentCreate → Request
  post_agent_activate : Option String → ℕ → Request
  post_agent_suspend : Option String → ℕ → Request
  post_agent_revoke : Option String → ℕ → Request
  post_agent_rotate_key : Option String → ℕ → String → Request
  post_session : SessionCreateRequest → Request
  post_session_revoke : ℕ → Request
  post_delegation : Option String → DelegationCreate → Request
  post_delegation_revoke : Option String → ℕ → Request
  post_blueprint : Option String → BlueprintCreate → Request
  put_blueprint : Option String → ℕ → BlueprintUpdate → Request
  post_blueprint_activate : Option String → ℕ → Request
  post_blueprint_deactivate : Option String → ℕ → Request

-- The state after a handler, with what `get_db` does at its end; the answer is dropped.
abbrev pub state_after : {A : Type 0} → Exec World A → World → World
state_after m w = (with_db m w).1

module _ (settings : Settings) (env : Environment) (prims : Primitives) (jwt : Jwt) where
  unfoldable pub handle : Request → World → World
  handle (post_agent key body) = state_after (create_agent settings env key body)
  handle (post_agent_activate key id) = state_after (activate_agent settings env key id)
  handle (post_agent_suspend key id) = state_after (suspend_agent settings env key id)
  handle (post_agent_revoke key id) = state_after (revoke_agent settings env key id)
  handle (post_agent_rotate_key key id pem) = state_after (rotate_key settings env key id pem)
  handle (post_session body) = state_after (create_session settings env prims jwt body)
  handle (post_session_revoke id) = state_after (revoke_session env id)
  handle (post_delegation key body) = state_after (create_delegation settings env key body)
  handle (post_delegation_revoke key id) = state_after (revoke_delegation settings env key id)
  handle (post_blueprint key body) = state_after (create_blueprint settings env key body)
  handle (put_blueprint key id body) = state_after (update_blueprint settings env key id body)
  handle (post_blueprint_activate key id) = state_after (activate_blueprint settings env key id)
  handle (post_blueprint_deactivate key id) = state_after (deactivate_blueprint settings env key id)

  unfoldable pub serve : List Request → World → World
  serve [] w = w
  serve (r ∷ rs) w = serve rs (handle r w)
