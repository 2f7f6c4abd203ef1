-- ===== src/Identity/Authorization/Refused.antt =====
-- A session that was revoked authorizes nothing, whatever requests follow.
use agent_identity_lab.Prelude.{ℕ, String, ◌≡◌, refl, ◌∙◌, false, some, List, ◌==◌}
use agent_identity_lab.Json.{Dict, str, get as get_value, truthy}
use agent_identity_lab.Common.{Settings, text}
use agent_identity_lab.Exec.{Result, http, ok, err}
use agent_identity_lab.Models.{AgentSession}
use agent_identity_lab.Attestation.{Primitives}
use agent_identity_lab.Policy.Opa.{Opa}
use agent_identity_lab.Tokens.{Jwt, validate_session_token}
use agent_identity_lab.Database.{World, Environment, find_session}
use agent_identity_lab.Database.Transaction.{finish, with_db}
use agent_identity_lab.Identity.Authorization.{
  AuthorizeRequest, session_of, authorize_session, authorize,
}
use agent_identity_lab.Identity.Requests.{Request, serve}
use agent_identity_lab.Identity.Requests.Revoked.{serve-revoked_session}

finish-result : {A : Type 0} (r : Result A) (v : World) → (finish (r, v)).0 ≡ r
finish-result (ok a) v = refl
finish-result (err e) v = refl

module _ (settings : Settings) (env : Environment) (jwt : Jwt) (opa : Opa) where
  -- The token's `jti` is the id of this session.
  pub record TokenFor (body : AuthorizeRequest) (draws id : ℕ) : Type 0 where
    pub claims : Dict
    pub valid : validate_session_token jwt settings (env.time draws) body.session_token ≡ ok claims
    pub jti : String
    pub given : get_value "jti" claims ≡ str jti
    pub nonempty : (jti == "") ≡ false
    pub parsed : env.parse_uuid jti ≡ some id

  authorize-revoked :
      (body : AuthorizeRequest) (w : World) (id t : ℕ) (s : AgentSession)
      → TokenFor body w.draws id
      → find_session id w.db ≡ some s
      → s.revoked_at ≡ some t
      → (authorize settings env jwt opa body w).0 ≡ err (http 401 (text "Session has been revoked"))
  unfolding authorize session_of authorize_session truthy
  authorize-revoked body w id t s token found gone =
      rw (token.valid, token.given, token.nonempty, token.parsed, found, gone) refl

  -- Once a session is revoked in the committed tables, then after any requests a token that the
  -- validator lets through and whose jti, not empty, is its id is answered by 401
  -- "Session has been revoked".
  pub serve-authorize_revoked :
      (prims : Primitives) (rs : List Request) (w : World) (id t : ℕ) (s : AgentSession)
      → find_session id w.durable ≡ some s
      → s.revoked_at ≡ some t
      → (body : AuthorizeRequest) → TokenFor body (serve settings env prims jwt rs w).draws id
      → (with_db (authorize settings env jwt opa body) (serve settings env prims jwt rs w)).0
        ≡ err (http 401 (text "Session has been revoked"))
  unfolding with_db
  serve-authorize_revoked prims rs w id t s found gone body token =
      let v = serve settings env prims jwt rs w in
      let (u, still, revoked, _) =
        serve-revoked_session settings env prims jwt rs w id t s found gone in
      let start = record v { db = v.durable } in
      finish-result (authorize settings env jwt opa body start).0
        (authorize settings env jwt opa body start).1
      ∙ authorize-revoked body start id t u token still revoked
