-- ===== src/Client.antt =====
-- packages/common/client.py: the library with which an agent's runtime opens sessions and asks for
-- decisions, against the Identity API of the same world. The API answers every request: timeouts
-- and lost connections are left out.
pub mod Opens
pub mod Decides
pub mod Allowed
mod Tests
use agent_identity_lab.Prelude.{
  ℕ, ◌+◌, String, Bool, true, false, ◌==◌, ◌&&◌, Option, none, some, List, [], ◌∷◌, put,
  rstrip_slash, if◌then◌else◌,
}
use agent_identity_lab.Prelude.Int.{ℤ, pos}
use agent_identity_lab.Json.{Json, Dict, str}
use agent_identity_lab.Common.{Settings, text}
use agent_identity_lab.Exec.{
  Error, http, session_error, value_error, database_error, type_error, Result, ok, err, Exec, pure,
  or_raise, gets, ◌>>=◌, ◌>>◌,
}
use agent_identity_lab.Models.{AgentSession}
use agent_identity_lab.Attestation.{Primitives, sign_attestation}
use agent_identity_lab.Tokens.{Jwt}
use agent_identity_lab.Policy.Opa.{Opa}
use agent_identity_lab.Database.{World, Environment, now, new_uuid}
use agent_identity_lab.Database.Transaction.{with_db}
use agent_identity_lab.Identity.Sessions.{SessionCreateRequest}
use agent_identity_lab.Identity.Sessions.Api
use agent_identity_lab.Identity.Sessions.Api.{SessionResponse, session_response}
use agent_identity_lab.Identity.Authorization
use agent_identity_lab.Identity.Authorization.{AuthorizeRequest, AuthorizeResponse}

-- `AgentIdentityClient`
pub record AgentIdentityClient : Type 0 where
  pub api_url : String
  pub private_key : Option String

-- What the client's machine gives it: a key pair of each draw, as PEM texts, private half first,
-- and `datetime.isoformat`.
pub record Machine : Type 0 where
  pub generate : ℕ → String × String
  pub isoformat : ℕ → String

-- `AgentIdentityClient(identity_api_url)`
unfoldable pub new_client : String → AgentIdentityClient
new_client identity_api_url = record { api_url = rstrip_slash identity_api_url; private_key = none }

-- `response.raise_for_status()`: an error of the API is one of the client, with its status; what
-- no handler of the API catches is its status 500.
abbrev pub raise_for_status {ℓ} : {A : Type ℓ} → Result A → Result A
raise_for_status (ok a) = ok a
raise_for_status (err (http status detail)) = err (http status detail)
raise_for_status (err e) = err (http 500 (text "Internal Server Error"))

-- A request of a client, which the API serves in a transaction of its own.
unfoldable pub call : {A : Type 0} → Exec World A → Exec World A
call handler w = let (r, v) = with_db handler w in (raise_for_status r, v)

-- `claims.update(overrides)`
unfoldable pub update : Dict → Dict → Dict
update claims [] = claims
update claims ((key, value) ∷ overrides) = update (put key value claims) overrides

-- The JSON body of POST /v1/sessions, which the API reads as a `SessionCreateRequest`.
pub record SessionPost : Type 0 where
  pub agent_id : String
  pub acting_user_id : Option String
  pub requested_scopes : List String
  pub requested_ttl_seconds : ℤ
  pub model_id : String
  pub prompt_version : String
  pub runtime_attestation : Dict

-- The arguments of `create_session`, in its order.
pub record SessionArguments : Type 0 where
  pub agent_id : String
  pub acting_user_id : Option String
  pub requested_scopes : List String
  pub model_id : String
  pub prompt_version : String
  pub environment : String
  pub attestation_overrides : Dict

-- The arguments that have defaults.
abbrev pub default_arguments : String → Option String → List String → SessionArguments
default_arguments agent_id acting_user_id requested_scopes = record {
  agent_id = agent_id;
  acting_user_id = acting_user_id;
  requested_scopes = requested_scopes;
  model_id = "deepseek-chat";
  prompt_version = "v1";
  environment = "development";
  attestation_overrides = [];
}

-- The claims at an `isoformat` and a nonce.
unfoldable pub attestation_claims : SessionArguments → String → String → Dict
unfolding update
attestation_claims args issued_at nonce =
    update
      (("agent_id", str args.agent_id)
        ∷ ("container_digest", str "sha256:dev")
        ∷ ("git_commit", str "dev")
        ∷ ("environment", str args.environment)
        ∷ ("host_id", str "localhost")
        ∷ ("framework", str "hermes")
        ∷ ("framework_version", str "0.4.0")
        ∷ ("model", str args.model_id)
        ∷ ("prompt_version", str args.prompt_version)
        ∷ ("issued_at", str issued_at)
        ∷ ("nonce", str nonce)
        ∷ [])
      args.attestation_overrides

-- The body with the signed claims.
unfoldable pub session_post : SessionArguments → Dict → String → SessionPost
session_post args claims signature = record {
  agent_id = args.agent_id;
  acting_user_id = args.acting_user_id;
  requested_scopes = args.requested_scopes;
  requested_ttl_seconds = pos 900;
  model_id = args.model_id;
  prompt_version = args.prompt_version;
  runtime_attestation = put "signature" (str signature) claims;
}

module _ (env : Environment) (machine : Machine) where
  -- `generate_keypair`: the client keeps the private half.
  unfoldable pub generate_keypair :
      AgentIdentityClient → Exec World ((String × String) × AgentIdentityClient)
  generate_keypair client w =
      let pair = machine.generate w.draws in
      (ok (pair, record client { private_key = some pair.0 }), record w { draws = w.draws + 1 })

  -- The body as the API's request: an id that is no UUID is refused.
  unfoldable pub read_post : SessionPost → Exec World SessionCreateRequest
  read_post post = do
    agent_id ← or_raise (env.parse_uuid post.agent_id) (http 422 (text "agent_id"))
    pure (record {
      agent_id = agent_id;
      acting_user_id = post.acting_user_id;
      delegation_grant_id = none;
      requested_scopes = post.requested_scopes;
      requested_ttl_seconds = post.requested_ttl_seconds;
      model_id = post.model_id;
      prompt_version = post.prompt_version;
      runtime_attestation = post.runtime_attestation;
    })

module _ (settings : Settings) (env : Environment) (prims : Primitives) (jwt : Jwt)
    (machine : Machine) where
  -- POST {api_url}/v1/sessions
  unfoldable pub post_session : SessionPost → Exec World SessionResponse
  post_session post = call (
      read_post env machine post >>= λ body.
      Api.create_session settings env prims jwt body >>= λ answer. pure (session_response answer))

  -- `create_session`; signing raises where the private key does not load or is not RSA.
  unfoldable pub create_session :
      AgentIdentityClient → SessionArguments → Exec World SessionResponse
  create_session client args = do
    private_key ←
        or_raise client.private_key
          (value_error (text "No private key available. Call generate_keypair() first."))
    t ← now env
    id ← new_uuid env
    let claims = attestation_claims args (machine.isoformat t) (env.uuid_str id)
    signature ←
        or_raise (sign_attestation prims claims private_key)
          (value_error (text "Attestation signing requires an RSA private key"))
    post_session (session_post args claims signature)

module _ (settings : Settings) (env : Environment) (jwt : Jwt) (opa : Opa) where
  -- `authorize`: POST {api_url}/v1/authorize
  unfoldable pub authorize : String → String → String → Exec World AuthorizeResponse
  authorize session_token tool operation = call (
      Authorization.authorize settings env jwt opa (record {
        session_token = session_token;
        tool = tool;
        operation = operation;
        resource = [];
      }))
