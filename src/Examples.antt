-- ===== src/Examples.antt =====
-- examples/_support.py: the steps that the demonstrations share, as clients of the Identity API and
-- of the token broker, whose database is the same. The text of a UUID in a reply is read back as
-- that UUID in a path.
pub mod Demos
pub mod Suspended
mod Tests
use Prim.Native.String.{slice}
use agent_identity_lab.Prelude.{ℕ, String, Option, none, some, List, [], ◌∷◌, ◌+s◌}
use agent_identity_lab.Prelude.Int.{pos}
use agent_identity_lab.Common.{Settings}
use agent_identity_lab.Exec.{Result, Exec, pure, ◌>>=◌, ◌>>◌}
use agent_identity_lab.Models.{AgentBlueprint, AgentIdentity}
use agent_identity_lab.Database.{World, Environment, new_uuid}
use agent_identity_lab.Identity.{StatusReply}
use agent_identity_lab.Identity.Blueprints
use agent_identity_lab.Identity.Blueprints.{BlueprintCreate, activate_blueprint}
use agent_identity_lab.Identity.Agents
use agent_identity_lab.Identity.Agents.{AgentCreate, activate_agent}
use agent_identity_lab.Broker.{ExchangeReply, token_exchange}
use agent_identity_lab.Client.{AgentIdentityClient, Machine, new_client, generate_keypair, call}

-- The key of `ADMIN_HEADERS`, and `IDENTITY_API_URL`
abbrev pub admin_key : Option String
admin_key = some "test-admin-key"

abbrev pub identity_api_url : String
identity_api_url = "http://localhost:8000"

-- `given or default`: an empty list counts as none.
abbrev pub or_default : Option (List String) → List String → List String
or_default none default = default
or_default (some []) default = default
or_default (some (x ∷ xs)) default = x ∷ xs

-- The body that `create_blueprint` sends, with the defaults of the keys that it leaves out.
unfoldable pub blueprint_post :
    String → String → List String → Option (List String) → Option (List String) → BlueprintCreate
blueprint_post slug name max_scopes approved_environments approved_models = record {
  slug = slug;
  name = name;
  description = none;
  approved_models = or_default approved_models ("deepseek-chat" ∷ []);
  approved_environments = or_default approved_environments ("development" ∷ []);
  max_scopes = max_scopes;
  tool_permissions = [];
  max_session_ttl_seconds = pos 1800;
  runtime_requirements = [];
}

-- What `create_blueprint_and_agent` returns.
pub record Party : Type 0 where
  pub sdk : AgentIdentityClient
  pub blueprint : AgentBlueprint
  pub agent : AgentIdentity

module _ (settings : Settings) (env : Environment) where
  -- `create_blueprint`: created, then activated; the reply is the one of the creation.
  unfoldable pub create_blueprint :
      String
      → String
      → List String
      → Option (List String)
      → Option (List String)
      → Exec World AgentBlueprint
  create_blueprint slug name max_scopes approved_environments approved_models = do
    blueprint ← call (
        Blueprints.create_blueprint settings env admin_key
          (blueprint_post slug name max_scopes approved_environments approved_models))
    activated ← call (activate_blueprint settings env admin_key blueprint.id)
    pure blueprint

  unfoldable pub create_agent : ℕ → String → String → Exec World AgentIdentity
  create_agent blueprint_id owner_id public_key = do
    agent ← call (
        Agents.create_agent settings env admin_key (record {
          blueprint_id = blueprint_id;
          owner_id = owner_id;
          sponsor_id = none;
          public_key = some public_key;
          metadata = [];
        }))
    activated ← call (activate_agent settings env admin_key agent.id)
    pure agent

  unfoldable pub suspend_agent : ℕ → Exec World StatusReply
  suspend_agent agent_id = call (Agents.suspend_agent settings env admin_key agent_id)

  unfoldable pub create_blueprint_and_agent :
      Machine → String → String → List String → Option (List String) → String → Exec World Party
  create_blueprint_and_agent machine slug_prefix blueprint_name max_scopes approved_environments
        owner_id =
      do
        ((private_pem, public_key), sdk) ←
            generate_keypair env machine (new_client identity_api_url)
        hex ← new_uuid env
        blueprint ←
            create_blueprint (slug_prefix +s "-" +s slice (env.uuid_hex hex) 0 8) blueprint_name
              max_scopes approved_environments none
        agent ← create_agent blueprint.id owner_id public_key
        pure (record { sdk = sdk; blueprint = blueprint; agent = agent })

module _ (env : Environment) (machine : Machine) where
  unfoldable pub exchange_token : String → List String → String → Exec World ExchangeReply
  exchange_token tool_id scopes session_id = call (
      token_exchange env machine.isoformat
        (record { tool_id = tool_id; scopes = scopes; session_id = session_id }))
