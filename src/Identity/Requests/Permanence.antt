-- ===== src/Identity/Requests/Permanence.antt =====
-- What no run of requests can undo.
use agent_identity_lab.Prelude.{inl, inr, List, [], ◌∷◌}
use agent_identity_lab.Common.{Settings}
use agent_identity_lab.Exec.{Result, ok, err, Exec}
use agent_identity_lab.Attestation.{Primitives}
use agent_identity_lab.Tokens.{Jwt}
use agent_identity_lab.Database.{World, Environment}
use agent_identity_lab.Database.Transaction.{finish, with_db}
use agent_identity_lab.Database.Evolution.{Evolves, Evolves-refl, Evolves-trans}
use agent_identity_lab.Database.Writes.{WorldEvolves, Writes}
use agent_identity_lab.Identity.Agents.Lifecycle.{
  create_agent-Writes, activate_agent-Writes, suspend_agent-Writes, revoke_agent-Writes,
  rotate_key-Writes,
}
use agent_identity_lab.Identity.Evolution.{
  create_delegation-Writes, revoke_delegation-Writes, create_blueprint-Writes,
  update_blueprint-Writes, activate_blueprint-Writes, deactivate_blueprint-Writes,
}
use agent_identity_lab.Identity.Sessions.Steps.{create_session-Writes, revoke_session-Writes}
use agent_identity_lab.Identity.Requests.{
  Request, post_agent, post_agent_activate, post_agent_suspend, post_agent_revoke,
  post_agent_rotate_key, post_session, post_session_revoke, post_delegation, post_delegation_revoke,
  post_blueprint, put_blueprint, post_blueprint_activate, post_blueprint_deactivate, state_after,
  handle, serve,
}

-- The committed tables evolve, whether the transaction ends by a commit or by a rollback.
finish-Evolves :
    {A : Type 0} (w : World) (r : Result A) (v : World)
    → WorldEvolves (record w { db = w.durable }) v
    → Evolves w.durable (finish (r, v)).1.durable
finish-Evolves w (ok a) v (h, c) = h
finish-Evolves w (err e) v (h, inl same) = rw same (Evolves-refl w.durable)
finish-Evolves w (err e) v (h, inr came) = came

state_after-Evolves :
    {A : Type 0} (m : Exec World A) (w : World)
    → Writes m
    → Evolves w.durable (state_after m w).durable
unfolding with_db
state_after-Evolves m w h =
    let start = record w { db = w.durable } in finish-Evolves w (m start).0 (m start).1 (h.at start)

module _ (settings : Settings) (env : Environment) (prims : Primitives) (jwt : Jwt) where
  pub handle-Evolves :
      (r : Request) (w : World) → Evolves w.durable (handle settings env prims jwt r w).durable
  unfolding handle
  handle-Evolves (post_agent key body) w =
      state_after-Evolves _ w (create_agent-Writes settings env key body)
  handle-Evolves (post_agent_activate key id) w =
      state_after-Evolves _ w (activate_agent-Writes settings env key id)
  handle-Evolves (post_agent_suspend key id) w =
      state_after-Evolves _ w (suspend_agent-Writes settings env key id)
  handle-Evolves (post_agent_revoke key id) w =
      state_after-Evolves _ w (revoke_agent-Writes settings env key id)
  handle-Evolves (post_agent_rotate_key key id pem) w =
      state_after-Evolves _ w (rotate_key-Writes settings env key id pem)
  handle-Evolves (post_session body) w =
      state_after-Evolves _ w (create_session-Writes settings env prims jwt body)
  handle-Evolves (post_session_revoke id) w = state_after-Evolves _ w (revoke_session-Writes env id)
  handle-Evolves (post_delegation key body) w =
      state_after-Evolves _ w (create_delegation-Writes settings env key body)
  handle-Evolves (post_delegation_revoke key id) w =
      state_after-Evolves _ w (revoke_delegation-Writes settings env key id)
  handle-Evolves (post_blueprint key body) w =
      state_after-Evolves _ w (create_blueprint-Writes settings env key body)
  handle-Evolves (put_blueprint key id body) w =
      state_after-Evolves _ w (update_blueprint-Writes settings env key id body)
  handle-Evolves (post_blueprint_activate key id) w =
      state_after-Evolves _ w (activate_blueprint-Writes settings env key id)
  handle-Evolves (post_blueprint_deactivate key id) w =
      state_after-Evolves _ w (deactivate_blueprint-Writes settings env key id)

  -- Through any requests to the Identity API, in any order, failing or not, the committed tables
  -- evolve: no agent, session, delegation or blueprint is removed, an agent's status moves along
  -- the life cycle, what a session or a delegation grants stays as it was, a revocation stays, the
  -- constraints of the tables are kept, and the registry of statuses takes steps of its relation.
  pub serve-Evolves :
      (rs : List Request) (w : World)
      → Evolves w.durable (serve settings env prims jwt rs w).durable
  unfolding serve
  serve-Evolves [] w = Evolves-refl w.durable
  serve-Evolves (r ∷ rs) w =
      Evolves-trans w.durable (handle settings env prims jwt r w).durable _ (handle-Evolves r w)
        (serve-Evolves rs (handle settings env prims jwt r w))
