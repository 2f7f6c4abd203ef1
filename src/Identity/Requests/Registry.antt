-- ===== src/Identity/Requests/Registry.antt =====
-- The registry of statuses as a specification of the requests: what each request is to do to it.
use agent_identity_lab.Prelude.{
  ℕ, String, Bool, true, false, not, ◌&&◌, ◌==◌, Option, none, some, List, [], ◌∷◌, get_or,
  if◌then◌else◌,
}
use agent_identity_lab.Common.{Settings, AgentStatus, draft, active, suspended, revoked}
use agent_identity_lab.Exec.{Result, ok, err}
use agent_identity_lab.Models.{AgentIdentity}
use agent_identity_lab.Attestation.{Primitives}
use agent_identity_lab.Tokens.{Jwt}
use agent_identity_lab.Database.{World, Environment}
use agent_identity_lab.Database.Transaction.{with_db}
use agent_identity_lab.Database.Registry.{Registry, set_status}
use agent_identity_lab.Identity.Agents.{create_agent}
use agent_identity_lab.Identity.Requests.{
  Request, post_agent, post_agent_activate, post_agent_suspend, post_agent_revoke, handle,
}

-- The key is given and is the configured one.
abbrev pub is_admin : Settings → Option String → Bool
is_admin settings key = not (get_or key "" == "") && get_or key "" == settings.admin_api_key

abbrev pub holds_of : (AgentStatus → Bool) → Option AgentStatus → Bool
holds_of test none = false
holds_of test (some s) = test s

-- The life cycle: what may become active, and what may be suspended.
abbrev pub may_activate : AgentStatus → Bool
may_activate AgentStatus.draft = true
may_activate AgentStatus.pending_approval = true
may_activate AgentStatus.active = false
may_activate AgentStatus.suspended = true
may_activate AgentStatus.revoked = false
may_activate AgentStatus.decommissioned = false

abbrev pub may_suspend : AgentStatus → Bool
may_suspend AgentStatus.draft = false
may_suspend AgentStatus.pending_approval = false
may_suspend AgentStatus.active = true
may_suspend AgentStatus.suspended = false
may_suspend AgentStatus.revoked = false
may_suspend AgentStatus.decommissioned = false

-- The agent moves to `target`, if it is there in a status that may.
abbrev pub move_if : Bool → (AgentStatus → Bool) → ℕ → AgentStatus → Registry → Registry
move_if admin may id target registry =
    if admin && holds_of may (registry id) then set_status id target registry else registry

-- The id in the answer to POST /v1/agents
abbrev pub entered : Result AgentIdentity → Registry → Registry
entered (ok agent) registry = set_status agent.id draft registry
entered (err e) registry = registry

module _ (settings : Settings) (env : Environment) where
  -- What a request does to the registry, in the state `w`.
  unfoldable pub respond : Request → World → Registry → Registry
  respond (post_agent key body) w registry =
      entered (with_db (create_agent settings env key body) w).0 registry
  respond (post_agent_activate key id) w registry =
      move_if (is_admin settings key) may_activate id active registry
  respond (post_agent_suspend key id) w registry =
      move_if (is_admin settings key) may_suspend id suspended registry
  respond (post_agent_revoke key id) w registry =
      move_if (is_admin settings key) (λ s. true) id revoked registry
  respond r w registry = registry

module _ (settings : Settings) (env : Environment) (prims : Primitives) (jwt : Jwt) where
  -- The registry after requests, each answered by the specification.
  unfoldable pub respond_all : List Request → World → Registry → Registry
  respond_all [] w registry = registry
  respond_all (r ∷ rs) w registry =
      respond_all rs (handle settings env prims jwt r w) (respond settings env r w registry)
