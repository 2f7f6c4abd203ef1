-- ===== src/Identity/Tests/Authorize.antt =====
-- Authorization on the small database, and each theorem at one request.
use agent_identity_lab.Prelude.{
  ◌≡◌, refl, ap, some, [], ◌∷◌, lookup, elem, to_set, ◌∩◌, insert, sorted, ends_with,
}
use agent_identity_lab.Json.{truthy, to_strs}
use agent_identity_lab.Common.{text, PolicyDecision}
use agent_identity_lab.Exec.{ok, err, http}
use agent_identity_lab.Models.Table.{find}
use agent_identity_lab.Tokens.{load_public_key, check_claims, check_decoded, validate_session_token}
use agent_identity_lab.Policy.Python.{
  tool_key, required_scopes, effective_of, intersect, evaluate_known, evaluate,
}
use agent_identity_lab.Policy.Opa.{
  opa_health, get_policy_adapter, adapter_evaluate, authorize_tool_access,
}
use agent_identity_lab.Database.{World, find_session, find_attestation}
use agent_identity_lab.Database.Transaction.{with_db}
use agent_identity_lab.Identity.Authorization.{
  AuthorizeRequest, AuthorizeResponse, session_of, decide, respond, authorize_session, authorize,
}
use agent_identity_lab.Identity.Authorization.Authorized.{IsAuthorized, authorize-IsAuthorized}
use agent_identity_lab.Identity.Authorization.Permitted.{IsPermitted, authorize-IsPermitted}
use agent_identity_lab.Identity.Authorization.Refused.{TokenFor, serve-authorize_revoked}
use agent_identity_lab.Identity.Requests.{Request, post_agent_activate}
use agent_identity_lab.Identity.Requests
use agent_identity_lab.Identity.Tests.{
  settings, env, prims, jwt, opa, claims_of, revoked_session, tables, world,
}

authorize_code : Unit {0}
unfolding check_claims with_db authorize authorize_session session_of decide respond
    validate_session_token check_decoded load_public_key lookup find truthy to_strs
    authorize_tool_access adapter_evaluate get_policy_adapter opa_health evaluate evaluate_known
    intersect effective_of required_scopes tool_key elem to_set ◌∩◌ insert sorted ends_with
authorize_code = tt

abbrev request : AuthorizeRequest
request = record { session_token = "t7"; tool = "github"; operation = "search_code"; resource = [] }

abbrev answer : AuthorizeResponse
answer = record {
  decision = PolicyDecision.allow;
  effective_scopes = "repo:read" ∷ [];
  reason = text "Permission intersection satisfied";
  decision_id = "dec_trace_1";
  obligations = "log_request" ∷ [];
}

allowed_run : (authorize settings env jwt opa request world).0 ≡ ok answer
unfolding authorize_code
allowed_run = refl

allowed :
    authorize settings env jwt opa request world
    ≡ (ok answer, (authorize settings env jwt opa request world).1)
allowed = ap (λ r. (r, (authorize settings env jwt opa request world).1)) allowed_run

authorize-IsAuthorized_example :
    IsAuthorized settings env jwt opa request world answer
    × ((authorize settings env jwt opa request world).1.db ≡ tables)
authorize-IsAuthorized_example =
    authorize-IsAuthorized settings env jwt opa request world
      (authorize settings env jwt opa request world).1 answer allowed

authorize-IsPermitted_example :
    (a : IsAuthorized settings env jwt opa request world answer) × IsPermitted a.decision.requested
      a.session a.decision.agent a.decision.blueprint
      (find_attestation a.session.runtime_attestation_id tables)
authorize-IsPermitted_example =
    authorize-IsPermitted settings env jwt opa (λ e. cc e) request world
      (authorize settings env jwt opa request world).1 answer allowed refl

abbrev late : AuthorizeRequest
late = record request { session_token = "t9" }

abbrev after : World
after =
    Requests.serve settings env prims jwt (post_agent_activate (some "dev-admin-key") 3 ∷ []) world

session_found : find_session 9 tables ≡ some revoked_session
unfolding find
session_found = refl

late_token : TokenFor settings env jwt opa late after.draws 9
unfolding authorize_code
late_token = record {
  claims = claims_of "9";
  valid = refl;
  jti = "9";
  given = refl;
  nonempty = refl;
  parsed = refl;
}

serve-authorize_revoked_example :
    (with_db (authorize settings env jwt opa late) after).0
    ≡ err (http 401 (text "Session has been revoked"))
serve-authorize_revoked_example =
    serve-authorize_revoked settings env jwt opa prims
      (post_agent_activate (some "dev-admin-key") 3 ∷ []) world 9 8 revoked_session session_found
      refl late late_token
