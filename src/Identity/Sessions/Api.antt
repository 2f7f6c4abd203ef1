-- ===== src/Identity/Sessions/Api.antt =====
-- The routes of api/sessions.py.
use agent_identity_lab.Prelude.{
  ℕ, String, not, ◌&&◌, Option, none, some, List, is_some, lookup, pop, if◌then◌else◌,
}
use agent_identity_lab.Prelude.Int.{pos, leb_ℤ}
use agent_identity_lab.Json.{Json, Dict, str}
use agent_identity_lab.Common.{Settings, text}
use agent_identity_lab.Exec.{
  http, session_error, Result, ok, err, Exec, pure, raise_if, or_raise, ◌>>=◌, ◌>>◌,
}
use agent_identity_lab.Models.{AgentSession}
use agent_identity_lab.Attestation.{Primitives}
use agent_identity_lab.Tokens.{Jwt}
use agent_identity_lab.Database.{World, Environment, get, find_session}
use agent_identity_lab.Identity.{StatusReply}
use agent_identity_lab.Identity.Sessions.{
  SessionCreateRequest, service_create_session, service_revoke_session,
}

-- `except SessionError as exc: raise HTTPException(400, str(exc))`
abbrev pub session_handler {ℓ} : {A : Type ℓ} → Result A → Result A
session_handler (ok a) = ok a
session_handler (err (session_error m)) = err (http 400 m)
session_handler (err e) = err e

abbrev pub catching : {A : Type 0} → Exec World A → Exec World A
catching m w = let (r, v) = m w in (session_handler r, v)

-- `attestation_data.pop("signature", "")`
abbrev pub signature_of : Dict → Json
signature_of sent = elim (lookup "signature" sent) [ none ↦ str "" | some v ↦ v ]

module _ (settings : Settings) (env : Environment) (prims : Primitives) (jwt : Jwt) where
  unfoldable pub create_session : SessionCreateRequest → Exec World (AgentSession × String)
  create_session body = do
    raise_if
        (not
          (leb_ℤ (pos 1) body.requested_ttl_seconds && leb_ℤ body.requested_ttl_seconds (pos 1800)))
        (http 422 (text "requested_ttl_seconds"))
    catching (
        service_create_session settings env prims jwt body
          (pop "signature" body.runtime_attestation) (signature_of body.runtime_attestation))

-- The answer of POST /v1/sessions, with times as they are stored.
pub record SessionResponse : Type 0 where
  pub id : ℕ
  pub agent_id : ℕ
  pub acting_user_id : Option String
  pub token : String
  pub trace_id : String
  pub effective_scopes : List String
  pub issued_at : ℕ
  pub expires_at : ℕ

unfoldable pub session_response : AgentSession × String → SessionResponse
session_response (session, token) = record {
  id = session.id;
  agent_id = session.agent_id;
  acting_user_id = session.acting_user_id;
  token = token;
  trace_id = session.trace_id;
  effective_scopes = session.effective_scopes;
  issued_at = session.issued_at;
  expires_at = session.expires_at;
}

-- The answer of GET /v1/sessions/{id}, with times as they are stored.
pub record SessionView : Type 0 where
  pub id : ℕ
  pub agent_id : ℕ
  pub acting_user_id : Option String
  pub status : String
  pub effective_scopes : List String
  pub trace_id : String
  pub issued_at : ℕ
  pub expires_at : ℕ
  pub revoked_at : Option ℕ

unfoldable pub get_session : ℕ → Exec World SessionView
get_session id = do
  found ← get find_session id
  session ← or_raise found (http 404 (text "Session not found"))
  pure (record {
    id = session.id;
    agent_id = session.agent_id;
    acting_user_id = session.acting_user_id;
    status = if is_some session.revoked_at then "revoked" else "active";
    effective_scopes = session.effective_scopes;
    trace_id = session.trace_id;
    issued_at = session.issued_at;
    expires_at = session.expires_at;
    revoked_at = session.revoked_at;
  })

module _ (env : Environment) where
  unfoldable pub revoke_session : ℕ → Exec World StatusReply
  revoke_session id = catching (service_revoke_session env id) >>= λ s.
      pure (record { status = "revoked"; id = id })
