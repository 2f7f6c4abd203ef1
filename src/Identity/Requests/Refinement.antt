-- ===== src/Identity/Requests/Refinement.antt =====
-- The requests refine the registry of statuses.
use agent_identity_lab.Prelude.{◌≡◌, refl, ap, ◌∙◌, inl, inr, List, [], ◌∷◌}
use agent_identity_lab.Common.{Settings}
use agent_identity_lab.Exec.{Result, ok, err, Exec}
use agent_identity_lab.Models.{AgentIdentity}
use agent_identity_lab.Models.Table.{find}
use agent_identity_lab.Attestation.{Primitives}
use agent_identity_lab.Tokens.{Jwt}
use agent_identity_lab.Database.{World, Environment}
use agent_identity_lab.Database.Transaction.{finish, with_db}
use agent_identity_lab.Database.Registry.{Registry, statuses, status_of}
use agent_identity_lab.Identity.Requests.{
  Request, post_agent, post_agent_activate, post_agent_suspend, post_agent_revoke,
  post_agent_rotate_key, post_session, post_session_revoke, post_delegation, post_delegation_revoke,
  post_blueprint, put_blueprint, post_blueprint_activate, post_blueprint_deactivate, state_after,
  handle, serve,
}
use agent_identity_lab.Identity.Requests.Unmoved.{
  SameAgents, Unmoved, create_session-Unmoved, revoke_session-Unmoved, create_delegation-Unmoved,
  revoke_delegation-Unmoved, create_blueprint-Unmoved, update_blueprint-Unmoved,
  activate_blueprint-Unmoved, deactivate_blueprint-Unmoved,
}
use agent_identity_lab.Identity.Requests.Registry.{respond, respond_all}
use agent_identity_lab.Identity.Requests.Enrolled.{create-respond}
use agent_identity_lab.Identity.Requests.Moves.{
  activate-respond, suspend-respond, revoke-respond, rotate-respond,
}

-- A request that leaves the agents alone.
unmoved :
    {A : Type 0} (m : Exec World A) (w : World)
    → Unmoved m
    → statuses (state_after m w).durable ≡ statuses w.durable
unfolding with_db
unmoved {A = A} m w h =
    let start = record w { db = w.durable } in go (m start).0 (m start).1 (h.at start)
  where
    shown : List AgentIdentity → Registry
    shown rows id = status_of (find (λ r. r.id) id rows)

    go :
        (r : Result A) (v : World)
        → SameAgents (record w { db = w.durable }) v
        → statuses (finish (r, v)).1.durable ≡ statuses w.durable
    go (ok a) v (same, c) = ap shown same
    go (err e) v (same, inl kept) = ap shown kept
    go (err e) v (same, inr came) = ap shown came

module _ (settings : Settings) (env : Environment) (prims : Primitives) (jwt : Jwt) where
  handle-respond :
      (r : Request) (w : World)
      → statuses (handle settings env prims jwt r w).durable
        ≡ respond settings env r w (statuses w.durable)
  unfolding handle respond
  handle-respond (post_agent key body) w = create-respond settings env key body w
  handle-respond (post_agent_activate key id) w = activate-respond settings env key id w
  handle-respond (post_agent_suspend key id) w = suspend-respond settings env key id w
  handle-respond (post_agent_revoke key id) w = revoke-respond settings env key id w
  handle-respond (post_agent_rotate_key key id pem) w = rotate-respond settings env key id pem w
  handle-respond (post_session body) w =
      unmoved _ w (create_session-Unmoved settings env prims jwt body)
  handle-respond (post_session_revoke id) w = unmoved _ w (revoke_session-Unmoved env id)
  handle-respond (post_delegation key body) w =
      unmoved _ w (create_delegation-Unmoved settings env key body)
  handle-respond (post_delegation_revoke key id) w =
      unmoved _ w (revoke_delegation-Unmoved settings env key id)
  handle-respond (post_blueprint key body) w =
      unmoved _ w (create_blueprint-Unmoved settings env key body)
  handle-respond (put_blueprint key id body) w =
      unmoved _ w (update_blueprint-Unmoved settings env key id body)
  handle-respond (post_blueprint_activate key id) w =
      unmoved _ w (activate_blueprint-Unmoved settings env key id)
  handle-respond (post_blueprint_deactivate key id) w =
      unmoved _ w (deactivate_blueprint-Unmoved settings env key id)

  -- After any requests to the Identity API, the statuses in the committed tables are those that the
  -- registry, as a specification, has after them: a request with the admin key activates an agent
  -- that is a draft, pending or suspended, suspends an active one and revokes any that is there, an
  -- answer to POST /v1/agents enters its agent as a draft, and nothing else changes any.
  pub serve-respond :
      (rs : List Request) (w : World)
      → statuses (serve settings env prims jwt rs w).durable
        ≡ respond_all settings env prims jwt rs w (statuses w.durable)
  unfolding serve respond_all
  serve-respond [] w = refl
  serve-respond (r ∷ rs) w =
      serve-respond rs (handle settings env prims jwt r w)
      ∙ ap (respond_all settings env prims jwt rs (handle settings env prims jwt r w))
          (handle-respond r w)
