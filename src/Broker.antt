-- ===== src/Broker.antt =====
-- apps/token_broker: the providers, the exchange service and POST /v1/token-exchange.
pub mod Leases
mod Tests
use agent_identity_lab.Prelude.{
  ℕ, ◌+◌, String, Bool, true, ◌==◌, Option, none, some, List, [], ◌∷◌, if◌then◌else◌, lookup,
  get_or, ◌+s◌,
}
use Prim.Native.String.{slice}
use agent_identity_lab.Prelude.Int.{pos, add_seconds}
use agent_identity_lab.Common.{Message, text, with_str}
use agent_identity_lab.Exec.{
  Error, http, value_error, Result, ok, err, Exec, pure, or_raise, ◌>>=◌, ◌>>◌,
}
use agent_identity_lab.Models.{CredentialLease}
use agent_identity_lab.Database.{World, Environment, now, new_uuid, add_lease}

-- The two classes of providers, and `providers` of main.py.
pub data Provider : Type 0 where
  mock_oauth static_secret : Provider

abbrev pub providers : List (String × Provider)
providers = ("mock_oauth", mock_oauth) ∷ ("static_secret", static_secret) ∷ []

abbrev pub secrets : List (String × String)
secrets = ("github", "ghp_mock_secret_token") ∷ ("confluence", "cf_mock_secret_token") ∷ []

-- What a provider issues; `type` is "bearer" for both, and only one gives an expiry.
pub record Credential : Type 0 where
  pub provider : String
  pub token : String
  pub scopes : List String
  pub expires_at : Option ℕ

pub record TokenExchangeRequest : Type 0 where
  pub tool_id : String
  pub scopes : List String
  pub session_id : String

-- The reply; `expires_at` is its `isoformat()`.
pub record ExchangeReply : Type 0 where
  pub kind : String
  pub token : String
  pub expires_at : String
  pub lease_id : String

-- `ExchangeService._select_provider`
unfoldable pub select_provider : String → String
select_provider tool_id = if tool_id == "github" then "mock_oauth" else "static_secret"

-- `except ValueError as exc: raise HTTPException(400, str(exc))`
abbrev pub value_handler {ℓ} : {A : Type ℓ} → Result A → Result A
value_handler (ok a) = ok a
value_handler (err (value_error m)) = err (http 400 m)
value_handler (err e) = err e

abbrev pub lease_row : (id session t : ℕ) → String → String → List String → CredentialLease
lease_row id session t provider_name tool_id scopes = record {
  id = id;
  session_id = session;
  tool_id = tool_id;
  scopes = scopes;
  provider = provider_name;
  issued_at = t;
  expires_at = add_seconds t (pos 1800);
  revoked_at = none;
}

-- `revoke`: the providers keep nothing of a lease, and answer that it is revoked.
abbrev revoke : Provider → String → Bool
revoke mock_oauth lease_id = true
revoke static_secret lease_id = true

module _ (env : Environment) (isoformat : ℕ → String) where
  -- `MockOAuthProvider.issue`
  unfoldable pub issue_mock_oauth : List String → Exec World Credential
  issue_mock_oauth scopes = do
    t ← now env
    hex ← new_uuid env
    pure (record {
      provider = "mock_oauth";
      token = "mock_oauth_token_" +s slice (env.uuid_hex hex) 0 16;
      scopes = scopes;
      expires_at = some (add_seconds t (pos 1800));
    })

  -- `StaticSecretProvider.issue`: the fallback is drawn also where there is a secret.
  unfoldable pub issue_static_secret : String → List String → Exec World Credential
  issue_static_secret tool_id scopes = do
    hex ← new_uuid env
    pure (record {
      provider = "static_secret";
      token = get_or (lookup tool_id secrets) ("mock_secret_" +s slice (env.uuid_hex hex) 0 8);
      scopes = scopes;
      expires_at = none;
    })

  unfoldable pub issue : Provider → String → List String → Exec World Credential
  issue mock_oauth tool_id scopes = issue_mock_oauth scopes
  issue static_secret tool_id scopes = issue_static_secret tool_id scopes

  -- The lease and the reply, once the credential is there.
  unfoldable pub lease :
      String → String → List String → String → Credential → Exec World ExchangeReply
  lease provider_name tool_id scopes session_id credential = do
    t ← now env
    session ←
        or_raise (env.parse_uuid session_id)
          (value_error (text "badly formed hexadecimal UUID string"))
    id ← new_uuid env
    add_lease (lease_row id session t provider_name tool_id scopes)
    pure (record {
      kind = "bearer";
      token = credential.token;
      expires_at = isoformat (get_or credential.expires_at (add_seconds t (pos 1800)));
      lease_id = env.uuid_str id;
    })

  -- `ExchangeService.exchange`
  unfoldable pub exchange : String → List String → String → Exec World ExchangeReply
  exchange tool_id scopes session_id = do
    let provider_name = select_provider tool_id
    provider ←
        or_raise (lookup provider_name providers)
          (value_error (with_str "No provider configured for {}" provider_name))
    credential ← issue provider tool_id scopes
    lease provider_name tool_id scopes session_id credential

  unfoldable pub token_exchange : TokenExchangeRequest → Exec World ExchangeReply
  token_exchange data_ w =
      let (r, v) = exchange data_.tool_id data_.scopes data_.session_id w in (value_handler r, v)
