-- ===== src/Identity/Agents.antt =====
-- api/agents.py and repositories/agent_repo.py.
pub mod Lifecycle
use agent_identity_lab.Prelude.{
  ℕ, String, Bool, true, false, not, ◌==◌, Option, none, some, List, keep, nat_eq, ◌+s◌,
  if◌then◌else◌,
}
use agent_identity_lab.Json.{Dict}
use agent_identity_lab.Common.{
  Settings, BlueprintStatus, AgentStatus, Message, text, with_agent_status, agent_status_str,
}
use agent_identity_lab.Exec.{http, Exec, Result, pure, raise_if, or_raise, gets, ◌>>=◌, ◌>>◌}
use agent_identity_lab.Models.{AgentIdentity, AgentBlueprint}
use agent_identity_lab.Database.{
  World, Environment, now, new_uuid, get, find_agent, find_blueprint, add_agent, save_agent, commit,
}
use agent_identity_lab.Identity.{require_admin_header, require_admin, has_length, StatusReply}

pub record AgentCreate : Type 0 where
  pub blueprint_id : ℕ
  pub owner_id : String
  pub sponsor_id : Option String
  pub public_key : Option String
  pub metadata : Dict

abbrev pub is_blueprint_active : BlueprintStatus → Bool
is_blueprint_active BlueprintStatus.active = true
is_blueprint_active _ = false

-- `status in {DRAFT, PENDING_APPROVAL, SUSPENDED}`
abbrev pub can_activate : AgentStatus → Bool
can_activate AgentStatus.draft = true
can_activate AgentStatus.pending_approval = true
can_activate AgentStatus.suspended = true
can_activate _ = false

abbrev pub is_agent_active : AgentStatus → Bool
is_agent_active AgentStatus.active = true
is_agent_active _ = false

-- `AgentRepository.create` and `update`
unfoldable pub create : AgentIdentity → Exec World AgentIdentity
create agent = do add_agent agent; commit; pure agent

unfoldable pub update : AgentIdentity → Exec World AgentIdentity
update agent = do save_agent agent; commit; pure agent

-- `AgentRepository.get_by_id` under the 404 of its callers
unfoldable pub existing_agent : ℕ → Exec World AgentIdentity
existing_agent id = do found ← get find_agent id; or_raise found (http 404 (text "Agent not found"))

module _ (settings : Settings) (env : Environment) (api_key : Option String) where
  -- Both dependencies, in the order of the parameters.
  unfoldable pub admin : Exec World (Unit {0})
  unfolding require_admin_header require_admin
  admin = require_admin_header api_key >> require_admin settings api_key

  unfoldable pub build_principal_uri : ℕ → String → String
  build_principal_uri agent_id blueprint_slug =
      "agent://local/" +s blueprint_slug +s "/" +s env.uuid_str agent_id

  unfoldable pub create_agent : AgentCreate → Exec World AgentIdentity
  create_agent body = do
    admin
    raise_if (not (has_length 256 body.owner_id)) (http 422 (text "owner_id"))
    found ← get find_blueprint body.blueprint_id
    blueprint ← or_raise found (http 404 (text "Blueprint not found"))
    raise_if (not (is_blueprint_active blueprint.status))
        (http 400 (text "Blueprint must be active"))
    agent_id ← new_uuid env
    create (record {
      id = agent_id;
      principal_uri = build_principal_uri agent_id blueprint.slug;
      blueprint_id = body.blueprint_id;
      owner_id = body.owner_id;
      sponsor_id = body.sponsor_id;
      status = AgentStatus.draft;
      public_key = body.public_key;
      metadata = body.metadata;
      activated_at = none;
      suspended_at = none;
      revoked_at = none;
    })

  unfoldable pub activate_agent : ℕ → Exec World StatusReply
  activate_agent id = do
    admin
    agent ← existing_agent id
    raise_if (not (can_activate agent.status))
        (http 400 (with_agent_status "Cannot activate agent in status '{}'" agent.status))
    t ← now env
    update (record agent { status = AgentStatus.active; activated_at = some t })
    pure (record { status = "active"; id = agent.id })

  unfoldable pub suspend_agent : ℕ → Exec World StatusReply
  suspend_agent id = do
    admin
    agent ← existing_agent id
    raise_if (not (is_agent_active agent.status))
        (http 400 (with_agent_status "Cannot suspend agent in status '{}'" agent.status))
    t ← now env
    update (record agent { status = AgentStatus.suspended; suspended_at = some t })
    pure (record { status = "suspended"; id = agent.id })

  unfoldable pub revoke_agent : ℕ → Exec World StatusReply
  revoke_agent id = do
    admin
    agent ← existing_agent id
    t ← now env
    update (record agent { status = AgentStatus.revoked; revoked_at = some t })
    pure (record { status = "revoked"; id = agent.id })

  unfoldable pub rotate_key : ℕ → String → Exec World StatusReply
  rotate_key id public_key = do
    admin
    agent ← existing_agent id
    update (record agent { public_key = some public_key })
    pure (record { status = "key_rotated"; id = agent.id })

-- `list_agents`: the filter by blueprint wins over the filter by status.
unfoldable pub list_agents : Option ℕ → Option AgentStatus → Exec World (List AgentIdentity)
list_agents (some blueprint_id) status =
    gets (λ w. keep (λ a. nat_eq a.blueprint_id blueprint_id) w.db.agents)
list_agents none (some status) =
    gets (λ w. keep (λ a. agent_status_str a.status == agent_status_str status) w.db.agents)
list_agents none none = gets (λ w. w.db.agents)

unfoldable pub get_agent : ℕ → Exec World AgentIdentity
get_agent id = existing_agent id
