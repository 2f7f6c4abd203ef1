-- ===== src/Tokens.antt =====
-- packages/token_library: session tokens. JSON Web Tokens are PyJWT's, the key files are the file
-- system's: parameters (`Jwt`), with what is documented of them in Tokens.RoundTrip.
pub mod RoundTrip
mod Tests
use agent_identity_lab.Prelude.{
  ℕ, ◌-◌, ◌/◌, String, Bool, true, false, not, ◌==◌, Option, none, some, List, [], ◌∷◌, keep,
  is_empty, ◌+s◌, if◌then◌else◌,
}
use agent_identity_lab.Prelude.Int.{pos}
use agent_identity_lab.Json.{Json, Dict, null, num, str, arr, strs, get, has_key}
use agent_identity_lab.Common.{Settings, Message, text, with_strs}
use agent_identity_lab.Exec.{Result, ok, err, value_error, type_error}
use agent_identity_lab.Models.{AgentSession}

-- What `jwt.decode` answers: the claims, or an exception by its class.
pub data Decoded : Type 0 where
  decoded : Dict → Decoded
  expired wrong_audience wrong_signature invalid_token : Decoded

pub record Jwt : Type 0 where
  -- from the claims, the key and the algorithm; `none` where it raises, as for a text that is no
  -- private key and an unknown algorithm
  pub encode : Dict → String → String → Option String
  -- at a time, from the token, the key, the algorithm, the audience and the issuer
  pub decode : ℕ → String → String → String → String → String → Decoded
  -- the content of a file, `none` where `open` raises
  pub file : String → Option String
  -- the process's own key pair
  pub ephemeral_keypair : String × String

-- `int(t.timestamp())`: seconds since 1970, for a time from there on.
unfoldable pub timestamp : ℕ → ℕ
timestamp t = t / 1000000 - 62135596800

abbrev pub opt_str : Option String → Json
opt_str none = null
opt_str (some s) = str s

abbrev pub read_file : Option String → Result String
read_file none = err type_error
read_file (some s) = ok s

abbrev pub encoded : Option String → Result String
encoded none = err type_error
encoded (some token) = ok token

module _ (jwt : Jwt) (settings : Settings) where
  unfoldable pub load_private_key : Result String
  load_private_key =
      if settings.jwt_private_key_path == ""
      then ok jwt.ephemeral_keypair.0
      else read_file (jwt.file settings.jwt_private_key_path)

  unfoldable pub load_public_key : Result String
  load_public_key =
      if settings.jwt_public_key_path == ""
      then ok jwt.ephemeral_keypair.1
      else read_file (jwt.file settings.jwt_public_key_path)

  -- The claims of `issue_session_token`, at the time `now`.
  unfoldable pub session_claims : (ℕ → String) → ℕ → AgentSession → String → Dict
  session_claims uuid_str now session blueprint_id =
      ("iss", str settings.jwt_issuer)
      ∷ ("sub", str ("agent:" +s uuid_str session.agent_id))
      ∷ ("aud", str settings.jwt_audience)
      ∷ ("iat", num (pos (timestamp now)))
      ∷ ("exp", num (pos (timestamp session.expires_at)))
      ∷ ("jti", str (uuid_str session.id))
      ∷ ("agent_id", str (uuid_str session.agent_id))
      ∷ ("blueprint_id", str blueprint_id)
      ∷ ("acting_user", opt_str session.acting_user_id)
      ∷ (
        "delegation_id",
        elim session.delegation_grant_id [ none ↦ null | some id ↦ str (uuid_str id) ],
      )
      ∷ ("scopes", arr (strs session.effective_scopes))
      ∷ ("model", str session.model_id)
      ∷ ("prompt_version", str session.prompt_version)
      ∷ ("trace_id", str session.trace_id)
      ∷ ("policy_version", str session.policy_version)
      ∷ []

  abbrev pub sign_claims : Dict → Result String → Result String
  sign_claims claims (ok key) = encoded (jwt.encode claims key settings.jwt_algorithm)
  sign_claims claims (err e) = err e

  unfoldable pub issue_session_token : (ℕ → String) → ℕ → AgentSession → String → Result String
  issue_session_token uuid_str now session blueprint_id =
      sign_claims (session_claims uuid_str now session blueprint_id) load_private_key

abbrev pub required_claims : List String
required_claims = "agent_id" ∷ "scopes" ∷ "trace_id" ∷ []

abbrev pub is_list : Json → Bool
is_list (arr vs) = true
is_list v = false

-- The tests of `validate_session_token` past the decoding.
unfoldable pub check_claims : Dict → Result Dict
check_claims claims =
    let missing = keep (λ claim. not (has_key claim claims)) required_claims in
    if not (is_empty missing)
    then err (value_error (with_strs "Missing required claims: {}" missing))
    else if not (is_list (get "scopes" claims))
    then err (value_error (text "scopes claim must be a list"))
    else ok claims

unfoldable pub check_decoded : Decoded → Result Dict
check_decoded (decoded claims) = check_claims claims
check_decoded expired = err (value_error (text "Token has expired"))
check_decoded wrong_audience = err (value_error (text "Invalid token audience"))
check_decoded wrong_signature = err (value_error (text "Invalid token signature"))
check_decoded invalid_token = err (value_error (text "Invalid token"))

module _ (jwt : Jwt) (settings : Settings) where
  abbrev pub decode_with : ℕ → String → Result String → Result Dict
  decode_with now token (ok key) =
      check_decoded
        (jwt.decode now token key settings.jwt_algorithm settings.jwt_audience settings.jwt_issuer)
  decode_with now token (err e) = err e

  unfoldable pub validate_session_token : ℕ → String → Result Dict
  validate_session_token now token = decode_with now token (load_public_key jwt settings)
