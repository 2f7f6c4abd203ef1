-- ===== src/Identity/Blueprints.antt =====
-- api/blueprints.py and repositories/blueprint_repo.py.
use agent_identity_lab.Prelude.{
  ℕ, ◌+◌, String, Bool, not, ◌&&◌, ◌==◌, Option, none, some, List, is_some, first, get_or,
}
use agent_identity_lab.Prelude.Int.{ℤ, pos, leb_ℤ}
use agent_identity_lab.Json.{Dict}
use agent_identity_lab.Common.{Settings, BlueprintStatus, text}
use agent_identity_lab.Exec.{
  http, database_error, Exec, pure, raise_if, or_raise, gets, ◌>>=◌, ◌>>◌,
}
use agent_identity_lab.Models.{AgentBlueprint}
use agent_identity_lab.Database.{
  World, Environment, new_uuid, get, commit, find_blueprint, add_blueprint, save_blueprint,
}
use agent_identity_lab.Identity.{require_admin, require_admin_header, has_length, StatusReply}

pub record BlueprintCreate : Type 0 where
  pub slug : String
  pub name : String
  pub description : Option String
  pub approved_models : List String
  pub approved_environments : List String
  pub max_scopes : List String
  pub tool_permissions : List (String × List String)
  pub max_session_ttl_seconds : ℤ
  pub runtime_requirements : Dict

-- The bounds of the fields of `BlueprintCreate`.
unfoldable pub is_valid_create : BlueprintCreate → Bool
is_valid_create body =
    has_length 128 body.slug
    && has_length 256 body.name
    && leb_ℤ (pos 60) body.max_session_ttl_seconds
    && leb_ℤ body.max_session_ttl_seconds (pos 86400)

-- A key of `BlueprintUpdate`: left out, an explicit null, or a value.
pub data Patch (A : Type 0) : Type 0 where
  unset null : Patch A
  set : A → Patch A

-- A null for one of the JSON columns, which the database would store as a JSON null, is left out.
pub record BlueprintUpdate : Type 0 where
  pub name : Patch String
  pub description : Patch String
  pub approved_models : Option (List String)
  pub approved_environments : Option (List String)
  pub max_scopes : Option (List String)
  pub tool_permissions : Option (List (String × List String))
  pub max_session_ttl_seconds : Patch ℤ
  pub runtime_requirements : Option Dict

-- The value of a column that may be null, and of one that may not, after `setattr`.
abbrev pub patch_nullable : {A : Type 0} → Option A → Patch A → Option A
patch_nullable old unset = old
patch_nullable old null = none
patch_nullable old (set v) = some v

abbrev pub patch : {A : Type 0} → A → Patch A → Option A
patch old unset = some old
patch old null = none
patch old (set v) = some v

-- The changed row, or `none` where a column that may not be null is.
abbrev pub with_patched :
    AgentBlueprint → BlueprintUpdate → Option String → Option ℤ → Option AgentBlueprint
with_patched b body none ttl = none
with_patched b body (some name) none = none
with_patched b body (some name) (some ttl) = some (record b {
  name = name;
  description = patch_nullable b.description body.description;
  approved_models = get_or body.approved_models b.approved_models;
  approved_environments = get_or body.approved_environments b.approved_environments;
  max_scopes = get_or body.max_scopes b.max_scopes;
  tool_permissions = get_or body.tool_permissions b.tool_permissions;
  max_session_ttl_seconds = ttl;
  runtime_requirements = get_or body.runtime_requirements b.runtime_requirements;
  version = b.version + 1;
})

unfoldable pub patched : AgentBlueprint → BlueprintUpdate → Option AgentBlueprint
patched b body =
    with_patched b body (patch b.name body.name)
      (patch b.max_session_ttl_seconds body.max_session_ttl_seconds)

unfoldable pub get_by_slug : String → Exec World (Option AgentBlueprint)
get_by_slug slug = gets (λ w. first (λ b. b.slug == slug) w.db.blueprints)

unfoldable pub existing_blueprint : ℕ → Exec World AgentBlueprint
existing_blueprint id = do
  found ← get find_blueprint id
  or_raise found (http 404 (text "Blueprint not found"))

-- `BlueprintRepository.create` and `update`
unfoldable pub create : AgentBlueprint → Exec World AgentBlueprint
create b = do add_blueprint b; commit; pure b

unfoldable pub update : AgentBlueprint → Exec World AgentBlueprint
update b = do save_blueprint b; commit; pure b

module _ (settings : Settings) (env : Environment) (api_key : Option String) where
  unfoldable pub admin : Exec World (Unit {0})
  unfolding require_admin_header require_admin
  admin = require_admin_header api_key >> require_admin settings api_key

  unfoldable pub create_blueprint : BlueprintCreate → Exec World AgentBlueprint
  create_blueprint body = do
    admin
    raise_if (not (is_valid_create body)) (http 422 (text "BlueprintCreate"))
    existing ← get_by_slug body.slug
    raise_if (is_some existing) (http 409 (text "Blueprint slug already exists"))
    id ← new_uuid env
    create (record {
      id = id;
      slug = body.slug;
      version = 1;
      name = body.name;
      description = body.description;
      status = BlueprintStatus.draft;
      approved_models = body.approved_models;
      approved_environments = body.approved_environments;
      max_scopes = body.max_scopes;
      tool_permissions = body.tool_permissions;
      max_session_ttl_seconds = body.max_session_ttl_seconds;
      runtime_requirements = body.runtime_requirements;
    })

  unfoldable pub update_blueprint : ℕ → BlueprintUpdate → Exec World AgentBlueprint
  update_blueprint id body = do
    admin
    blueprint ← existing_blueprint id
    changed ← or_raise (patched blueprint body) database_error
    update changed

  unfoldable pub activate_blueprint : ℕ → Exec World StatusReply
  activate_blueprint id = do
    admin
    blueprint ← existing_blueprint id
    update (record blueprint { status = BlueprintStatus.active })
    pure (record { status = "active"; id = blueprint.id })

  unfoldable pub deactivate_blueprint : ℕ → Exec World StatusReply
  deactivate_blueprint id = do
    admin
    blueprint ← existing_blueprint id
    update (record blueprint { status = BlueprintStatus.inactive })
    pure (record { status = "inactive"; id = blueprint.id })

unfoldable pub list_blueprints : Exec World (List AgentBlueprint)
list_blueprints = gets (λ w. w.db.blueprints)

unfoldable pub get_blueprint : ℕ → Exec World AgentBlueprint
get_blueprint id = existing_blueprint id
