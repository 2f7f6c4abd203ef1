-- ===== src/Identity/Tests/Run.antt =====
-- Requests on the small database, and each theorem at one of them.
use agent_identity_lab.Prelude.{contains}
use agent_identity_lab.Database.{
  attestation_fits, session_fits, agent_fits, blueprint_fits, delegation_fits, fits, fits_json,
}
use agent_identity_lab.Prelude.{◌≡◌, refl, ap, some, List, [], ◌∷◌, lookup, pop, nat_str, replace_z}
use agent_identity_lab.Json.{truthy, to_strs}
use agent_identity_lab.Prelude.Int.{min_ℤ, add_seconds}
use agent_identity_lab.Common.{with_agent_status, revoked}
use agent_identity_lab.Exec.{Error, ok, err, http}
use agent_identity_lab.Models.{AgentIdentity, AgentSession, DelegationGrant}
use agent_identity_lab.Models.Table.{find}
use agent_identity_lab.Attestation
use agent_identity_lab.Tokens.{
  timestamp, load_private_key, load_public_key, session_claims, issue_session_token, check_decoded,
  validate_session_token,
}
use agent_identity_lab.Database.{
  find_agent, find_session, find_delegation, add_attestation, add_session,
}
use agent_identity_lab.Database.Transaction.{with_db}
use agent_identity_lab.Database.Evolution.{Evolves}
use agent_identity_lab.Identity.Sessions.{
  SessionCreateRequest, attestation_row, issued_at_of, opener, check_delegation, verify_now,
  store_attestation, attest, ttl_of, session_row, issue_now, open_session, service_create_session,
}
use agent_identity_lab.Identity.Sessions.Api.{create_session}
use agent_identity_lab.Identity.Sessions.Guarantee.{IsOpened, create_session-IsOpened}
use agent_identity_lab.Identity.Sessions.Failed.{create_session-failed}
use agent_identity_lab.Identity.Requests.{
  Request, post_agent_activate, post_session_revoke, post_agent_revoke, handle, serve,
}
use agent_identity_lab.Identity.Requests.Unauthorized.{key_of, handle-unauthorized}
use agent_identity_lab.Identity.Requests.Permanence.{serve-Evolves}
use agent_identity_lab.Models.Table.Rows.{IsUnique}
use agent_identity_lab.Database.Integrity.{HasIntegrity}
use agent_identity_lab.Database.Registry.{statuses}
use agent_identity_lab.Identity.Requests.Registry.{respond_all}
use agent_identity_lab.Identity.Requests.Refinement.{serve-respond}
use agent_identity_lab.Identity.Requests.Revoked.{
  serve-revoked_agent, serve-revoked_session, serve-revoked_delegation,
}
use agent_identity_lab.Identity.Tests.{
  settings, env, prims, jwt, revoked_agent, live_session, revoked_session, revoked_grant, tables,
  world, session_request,
}

identity_code : Unit {0}
unfolding attestation_fits session_fits agent_fits blueprint_fits delegation_fits fits fits_json
    contains with_db create_session service_create_session open_session issue_now session_row ttl_of
    attest store_attestation verify_now check_delegation opener attestation_row issued_at_of
    Attestation.verify Attestation.verify_key Attestation.check_signature Attestation.signature_ok
    Attestation.check_issued_at Attestation.parse_issued_at Attestation.check_moment
    Attestation.check_time Attestation.check_nonce Attestation.check_claims Attestation.missing_of
    Attestation.seen Attestation.hashed issue_session_token validate_session_token session_claims
    check_decoded load_private_key load_public_key timestamp lookup pop nat_str replace_z truthy
    to_strs find add_attestation add_session min_ℤ add_seconds
identity_code = tt

-- Time 7300000003, half the hour cut to the blueprint's ten minutes.
opened_run :
    (create_session settings env prims jwt session_request world).0
    ≡ ok (
      record live_session {
        id = 105;
        runtime_attestation_id = 102;
        trace_id = "trace_0000000000000000";
        issued_at = 7300000003;
        expires_at = 7900000003;
      },
      "token",
    )
unfolding identity_code
opened_run = refl

abbrev new_session : AgentSession
new_session = record live_session {
  id = 105;
  runtime_attestation_id = 102;
  trace_id = "trace_0000000000000000";
  issued_at = 7300000003;
  expires_at = 7900000003;
}

create_session-IsOpened_example :
    IsOpened settings env prims jwt session_request world
      (new_session, "token")
      (create_session settings env prims jwt session_request world).1
create_session-IsOpened_example =
    create_session-IsOpened settings env prims jwt session_request world
      (create_session settings env prims jwt session_request world).1 (new_session, "token")
      (ap (λ r. (r, (create_session settings env prims jwt session_request world).1)) opened_run)

-- An agent that was revoked opens no session.
abbrev late_request : SessionCreateRequest
late_request = record session_request { agent_id = 3 }

abbrev late_error : Error
late_error = http 400 (with_agent_status "Agent is not active (status: {})" revoked)

late_run : (with_db (create_session settings env prims jwt late_request) world).0 ≡ err late_error
unfolding identity_code
late_run = refl

create_session-failed_example :
    ((with_db (create_session settings env prims jwt late_request) world).1.durable ≡ tables)
    × ((with_db (create_session settings env prims jwt late_request) world).1.db ≡ tables)
create_session-failed_example =
    create_session-failed settings env prims jwt late_request world late_error late_run

abbrev requests : List Request
requests = post_agent_activate (some "dev-admin-key") 3 ∷ post_session_revoke 7 ∷ []

serve-Evolves_example : Evolves tables (serve settings env prims jwt requests world).durable
serve-Evolves_example = serve-Evolves settings env prims jwt requests world

agent_found : find_agent 3 tables ≡ some revoked_agent
unfolding find
agent_found = refl

session_found : find_session 9 tables ≡ some revoked_session
unfolding find
session_found = refl

grant_found : find_delegation 5 tables ≡ some revoked_grant
unfolding find
grant_found = refl

serve-revoked_agent_example :
    (b : AgentIdentity) × (find_agent 3 (serve settings env prims jwt requests world).durable
      ≡ some b)
    × (b.status ≡ revoked)
serve-revoked_agent_example =
    serve-revoked_agent settings env prims jwt requests world 3 revoked_agent agent_found refl

serve-revoked_session_example :
    (u : AgentSession) × (find_session 9 (serve settings env prims jwt requests world).durable
      ≡ some u)
    × (u.revoked_at ≡ some 8)
    × (u.effective_scopes ≡ "repo:read" ∷ [])
serve-revoked_session_example =
    serve-revoked_session settings env prims jwt requests world 9 8 revoked_session session_found
      refl

serve-revoked_delegation_example :
    (h : DelegationGrant) × (find_delegation 5 (serve settings env prims jwt requests world).durable
      ≡ some h)
    × (h.revoked_at ≡ some 15)
    × (h.user_id ≡ "bob")
    × (h.agent_id ≡ 1)
serve-revoked_delegation_example =
    serve-revoked_delegation settings env prims jwt requests world 5 15 revoked_grant grant_found
      refl

-- The same request to revoke an agent, with a wrong key.
handle-unauthorized_example :
    handle settings env prims jwt (post_agent_revoke (some "guess") 1) world ≡ world
unfolding key_of
handle-unauthorized_example =
    handle-unauthorized settings env prims jwt (post_agent_revoke (some "guess") 1) world
      (some "guess") named refl
  where
    named : key_of (post_agent_revoke (some "guess") 1) ≡ some (some "guess")
    named = refl

tables-HasIntegrity : HasIntegrity tables
unfolding IsUnique find
tables-HasIntegrity = record {
  blueprint_ids = (refl, tt);
  agent_ids = (refl, (refl, tt));
  attestation_ids = (refl, tt);
  delegation_ids = (refl, tt);
  session_ids = (refl, (refl, tt));
  nonces = (refl, tt);
  agents = (refl, (refl, tt));
  attestations = (refl, tt);
  delegations = (refl, tt);
  sessions = ((refl, refl, refl), ((refl, refl, refl), tt));
}

serve-respond_example :
    statuses (serve settings env prims jwt requests world).durable
    ≡ respond_all settings env prims jwt requests world (statuses tables)
serve-respond_example = serve-respond settings env prims jwt requests world
