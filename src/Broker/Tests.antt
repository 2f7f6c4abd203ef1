-- ===== src/Broker/Tests.antt =====
-- An exchange on a small database, and the theorem at it.
use agent_identity_lab.Prelude.{contains}
use agent_identity_lab.Database.{lease_fits, fits, fits_json}
use agent_identity_lab.Prelude.{
  ℕ, ◌+◌, String, ◌≡◌, refl, ap, none, some, [], ◌∷◌, ◌==◌, lookup, if◌then◌else◌,
}
use agent_identity_lab.Prelude.Int.{add_seconds}
use agent_identity_lab.Exec.{ok, err, http}
use agent_identity_lab.Common.{text}
use agent_identity_lab.Models.{AgentSession}
use agent_identity_lab.Models.Table.{find}
use agent_identity_lab.Database.{Db, World, Environment, add_lease}
use agent_identity_lab.Broker.{
  TokenExchangeRequest, ExchangeReply, select_provider, issue, issue_mock_oauth,
  issue_static_secret, lease, exchange, token_exchange,
}
use agent_identity_lab.Broker.Leases.{IsLeased, token_exchange-IsLeased}

broker_code : Unit {0}
unfolding token_exchange exchange lease issue issue_mock_oauth issue_static_secret select_provider
    add_lease lease_fits fits fits_json contains find lookup add_seconds
broker_code = tt

abbrev env : Environment
env = record {
  time = λ draws. 1000 + draws;
  uuid = λ draws. 100 + draws;
  uuid_str = λ id. "lease";
  uuid_hex = λ id. "0123456789abcdef0123456789abcdef";
  parse_uuid = λ s. if s == "7" then some 7 else none;
}

abbrev session : AgentSession
session = record {
  id = 7;
  agent_id = 1;
  acting_user_id = none;
  delegation_grant_id = none;
  model_id = "m";
  prompt_version = "v1";
  runtime_attestation_id = 4;
  requested_scopes = [];
  effective_scopes = [];
  policy_version = "0.1.0";
  trace_id = "trace_1";
  issued_at = 1;
  expires_at = 2;
  revoked_at = some 1;
}

abbrev tables : Db
tables = record {
  blueprints = [];
  agents = [];
  attestations = [];
  delegations = [];
  sessions = session ∷ [];
  leases = [];
  events = [];
}

abbrev world : World
world = record { db = tables; durable = tables; nonces = []; draws = 0 }

abbrev request : TokenExchangeRequest
request = record { tool_id = "github"; scopes = "repo:read" ∷ []; session_id = "7" }

abbrev iso : ℕ → String
iso t = "later"

abbrev reply : ExchangeReply
reply = record {
  kind = "bearer";
  token = "mock_oauth_token_0123456789abcdef";
  expires_at = "later";
  lease_id = "lease";
}

-- The session of this run is revoked and expired.
exchanged : (token_exchange env iso request world).0 ≡ ok reply
unfolding broker_code
exchanged = refl

-- A secret goes out as it is stored; a session that is no UUID is refused after the credential
-- was issued.
other_runs :
    ((exchange env iso "confluence" [] "7" world).0
      ≡ ok (record reply { token = "cf_mock_secret_token" }))
    × ((token_exchange env iso (record request { session_id = "x" }) world).0
        ≡ err (http 400 (text "badly formed hexadecimal UUID string")))
unfolding broker_code
other_runs = (refl, refl)

token_exchange-IsLeased_example :
    IsLeased env request world reply (token_exchange env iso request world).1
token_exchange-IsLeased_example =
    token_exchange-IsLeased env iso request world (token_exchange env iso request world).1 reply
      (ap (λ r. (r, (token_exchange env iso request world).1)) exchanged)
