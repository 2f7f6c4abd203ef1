-- ===== src/Identity.antt =====
-- apps/identity_api: the routers, each a module below; what they share is here.
pub mod Agents
pub mod Sessions
pub mod Delegations
pub mod Blueprints
pub mod Authorization
pub mod Evolution
pub mod Requests
pub mod Tests
use agent_identity_lab.Prelude.{
  ℕ, ◌+◌, String, Bool, true, false, not, ◌&&◌, ◌||◌, ◌==◌, Option, leb, get_or,
}
use Prim.Native.String.{count}
use agent_identity_lab.Common.{Settings, Message, text}
use agent_identity_lab.Exec.{http, Exec, raise_if}
use agent_identity_lab.Database.{World}

-- `require_admin_header` and `require_admin`: the key is given, and is the configured one.
abbrev pub unauthorized : Message
unauthorized = text "Invalid or missing admin API key"

unfoldable pub require_admin_header : Option String → Exec World (Unit {0})
require_admin_header api_key = raise_if (get_or api_key "" == "") (http 401 unauthorized)

unfoldable pub require_admin : Settings → Option String → Exec World (Unit {0})
require_admin settings api_key =
    raise_if (get_or api_key "" == "" || not (get_or api_key "" == settings.admin_api_key))
      (http 401 unauthorized)

-- `Field(min_length=1, max_length=n)`
abbrev pub has_length : ℕ → String → Bool
has_length n s = leb 1 (count s) && leb (count s) n

-- `{"status": ..., "id": ...}`
pub record StatusReply : Type 0 where
  pub status : String
  pub id : ℕ
