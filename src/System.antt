-- ===== src/System.antt =====
-- The gateway in front of the Identity API: apps/mcp_gateway asks POST /v1/authorize of
-- apps/identity_api, on its committed tables.
pub mod Guarded
mod Tests
use agent_identity_lab.Prelude.{String, List, [], ◌∷◌, ◌+s◌}
use agent_identity_lab.Json.{Dict, str, arr, strs}
use agent_identity_lab.Common.{Settings, Message, PolicyDecision, decision_str}
use agent_identity_lab.Exec.{Error, http, Result, ok, err}
use agent_identity_lab.Policy.Opa.{Opa}
use agent_identity_lab.Tokens.{Jwt}
use agent_identity_lab.Database.{World, Environment}
use agent_identity_lab.Database.Transaction.{with_db}
use agent_identity_lab.Identity.Authorization.{AuthorizeRequest, AuthorizeResponse, authorize}
use agent_identity_lab.Gateway.{AuthorizeReply, no_json, object, Network}

-- The JSON object of an `AuthorizeResponse`; `shown` is the text of a message.
unfoldable pub response_fields : (Message → String) → AuthorizeResponse → Dict
response_fields shown answer =
    ("decision", str (decision_str answer.decision))
    ∷ ("effective_scopes", arr (strs answer.effective_scopes))
    ∷ ("reason", str (shown answer.reason))
    ∷ ("decision_id", str answer.decision_id)
    ∷ ("obligations", arr (strs answer.obligations))
    ∷ []

-- An `HTTPException` is its status with a detail; what no handler catches is a plain 500.
unfoldable pub reply_of : (Message → String) → Result AuthorizeResponse → AuthorizeReply
reply_of shown (ok answer) = object 200 (response_fields shown answer)
reply_of shown (err (http status detail)) = object status (("detail", str (shown detail)) ∷ [])
reply_of shown (err e) = no_json 500

-- The body that `GatewayAuth.authorize` posts.
unfoldable pub question : String → String → String → AuthorizeRequest
question session_token tool operation = record {
  session_token = session_token;
  tool = tool;
  operation = operation;
  resource = [];
}

module _ (settings : Settings) (env : Environment) (jwt : Jwt) (opa : Opa)
    (shown : Message → String) where
  -- The network of a gateway whose Identity API is in the state `w`.
  unfoldable pub network_at : World → Network → Network
  network_at w network = record network {
    ask = λ session_token tool operation.
        reply_of shown
          (with_db (authorize settings env jwt opa (question session_token tool operation)) w).0;
  }
