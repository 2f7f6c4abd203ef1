-- ===== src/MockServer/Tests.antt =====
-- The stand-in at concrete requests.
use agent_identity_lab.Prelude.{
  String, ◌≡◌, refl, Option, none, some, [], ◌∷◌, lookup, ◌==◌, if◌then◌else◌,
}
use agent_identity_lab.Json.{Json, null}
use agent_identity_lab.Common.{text}
use agent_identity_lab.Exec.{value_error, ok, err}
use agent_identity_lab.Gateway.{GatewayRequest}
use agent_identity_lab.MockServer.{body_of, github_tools, confluence_tools}

abbrev load : String → Option Json
load s = if s == "null" then some null else none

abbrev shown : Json → String
shown v = "None"

abbrev request : GatewayRequest
request = record {
  method = "POST";
  headers = ("x-trace-id", "trace_1") ∷ [];
  query_params = [];
  body = "null";
}

shows_post :
    github_tools load shown "search_code" request
    ≡ ok (
        ("tool", "github")
        ∷ ("operation", "search_code")
        ∷ ("result", "Mock: search_code completed successfully")
        ∷ ("trace_id", "trace_1")
        ∷ ("auth_header", "")
        ∷ ("body", "None")
        ∷ [])
unfolding github_tools body_of lookup
shows_post = refl

-- A PUT with a body that is no JSON ends in an error, a GET never reads it.
refuses_put :
    github_tools load shown "search_code" (record request { method = "PUT"; body = "" })
    ≡ err (value_error (text "JSONDecodeError"))
unfolding github_tools body_of
refuses_put = refl

shows_page :
    confluence_tools "get_page" (record request { method = "GET"; body = "" })
    ≡ ("tool", "confluence")
      ∷ ("operation", "get_page")
      ∷ ("result", "Mock: get_page completed successfully")
      ∷ ("trace_id", "trace_1")
      ∷ []
unfolding confluence_tools lookup
shows_page = refl
