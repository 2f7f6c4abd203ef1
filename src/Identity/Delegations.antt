-- ===== src/Identity/Delegations.antt =====
-- api/delegations.py.
use agent_identity_lab.Prelude.{ℕ, String, Bool, not, ◌&&◌, Option, none, some, List, is_some}
use agent_identity_lab.Prelude.Int.{ℤ, pos, leb_ℤ, add_seconds}
use agent_identity_lab.Json.{Dict}
use agent_identity_lab.Common.{Settings, text}
use agent_identity_lab.Exec.{http, Exec, pure, raise_if, or_raise, ◌>>=◌, ◌>>◌}
use agent_identity_lab.Models.{DelegationGrant}
use agent_identity_lab.Database.{
  World, Environment, now, new_uuid, get, commit, find_delegation, add_delegation, save_delegation,
}
use agent_identity_lab.Identity.{require_admin, StatusReply}

pub record DelegationCreate : Type 0 where
  pub user_id : String
  pub agent_id : ℕ
  pub scopes : List String
  pub resource_constraints : Dict
  pub ttl_seconds : ℤ

-- `Field(ge=1, le=86400)`
abbrev pub is_delegation_ttl : ℤ → Bool
is_delegation_ttl ttl = leb_ℤ (pos 1) ttl && leb_ℤ ttl (pos 86400)

unfoldable pub grant_row : (id t : ℕ) → DelegationCreate → DelegationGrant
grant_row id t body = record {
  id = id;
  user_id = body.user_id;
  agent_id = body.agent_id;
  scopes = body.scopes;
  resource_constraints = body.resource_constraints;
  issued_at = t;
  expires_at = add_seconds t body.ttl_seconds;
  revoked_at = none;
}

unfoldable pub existing_delegation : ℕ → Exec World DelegationGrant
existing_delegation id = do
  found ← get find_delegation id
  or_raise found (http 404 (text "Delegation not found"))

module _ (settings : Settings) (env : Environment) (api_key : Option String) where
  unfoldable pub create_delegation : DelegationCreate → Exec World DelegationGrant
  create_delegation body = do
    require_admin settings api_key
    raise_if (not (is_delegation_ttl body.ttl_seconds)) (http 422 (text "ttl_seconds"))
    t ← now env
    id ← new_uuid env
    add_delegation (grant_row id t body)
    commit
    pure (grant_row id t body)

  unfoldable pub revoke_delegation : ℕ → Exec World StatusReply
  revoke_delegation id = do
    require_admin settings api_key
    grant ← existing_delegation id
    raise_if (is_some grant.revoked_at) (http 400 (text "Delegation already revoked"))
    t ← now env
    save_delegation (record grant { revoked_at = some t })
    commit
    pure (record { status = "revoked"; id = id })

-- The answer of GET /v1/delegations/{id} is the row's columns, with whether it is revoked.
pub record DelegationView : Type 0 where
  pub id : ℕ
  pub user_id : String
  pub agent_id : ℕ
  pub scopes : List String
  pub issued_at : ℕ
  pub expires_at : ℕ
  pub revoked : Bool

unfoldable pub get_delegation : ℕ → Exec World DelegationView
get_delegation id = do
  grant ← existing_delegation id
  pure (record {
    id = grant.id;
    user_id = grant.user_id;
    agent_id = grant.agent_id;
    scopes = grant.scopes;
    issued_at = grant.issued_at;
    expires_at = grant.expires_at;
    revoked = is_some grant.revoked_at;
  })
