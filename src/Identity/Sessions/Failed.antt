-- ===== src/Identity/Sessions/Failed.antt =====
-- A POST /v1/sessions that fails leaves the tables as they were.
use agent_identity_lab.Prelude.{◌≡◌}
use agent_identity_lab.Common.{Settings}
use agent_identity_lab.Exec.{Error, Result, ok, err}
use agent_identity_lab.Attestation.{Primitives}
use agent_identity_lab.Tokens.{Jwt}
use agent_identity_lab.Database.{World, Environment}
use agent_identity_lab.Database.Transaction.{finish, with_db}
use agent_identity_lab.Identity.Sessions.{SessionCreateRequest}
use agent_identity_lab.Identity.Sessions.Api.{create_session}
use agent_identity_lab.Identity.Sessions.Steps.{create_session-Uncommitted}

finish-failed :
    {A : Type 0} (w v : World) (r : Result A) (e : Error)
    → v.durable ≡ w.durable
    → (finish (r, v)).0 ≡ err e
    → ((finish (r, v)).1.durable ≡ w.durable) × ((finish (r, v)).1.db ≡ w.durable)
finish-failed w v (ok a) e same h = absurd (cc h)
finish-failed w v (err f) e same h = (same, same)

module _ (settings : Settings) (env : Environment) (prims : Primitives) (jwt : Jwt) where
  -- Whatever error POST /v1/sessions ends in, also after it has written the attestation or the
  -- session, the committed tables are as before, and the transaction is back at them.
  pub create_session-failed :
      (body : SessionCreateRequest) (w : World) (e : Error)
      → (with_db (create_session settings env prims jwt body) w).0 ≡ err e
      → ((with_db (create_session settings env prims jwt body) w).1.durable ≡ w.durable)
        × ((with_db (create_session settings env prims jwt body) w).1.db ≡ w.durable)
  unfolding with_db
  create_session-failed body w e h =
      let start = record w { db = w.durable } in
      finish-failed w (create_session settings env prims jwt body start).1
        (create_session settings env prims jwt body start).0 e
        ((create_session-Uncommitted settings env prims jwt body).at start) h
