-- ===== src/MockServer.antt =====
-- apps/mock_mcp_server/main.py: the stand-in for an MCP server, which shows its request. The
-- reader of JSON and Python's `str` of a value are parameters.
mod Tests
use agent_identity_lab.Prelude.{
  String, Bool, ◌||◌, ◌==◌, Option, none, some, List, [], ◌∷◌, if◌then◌else◌, get_or, lookup, ◌+s◌,
}
use agent_identity_lab.Json.{Json, end, obj}
use agent_identity_lab.Common.{text}
use agent_identity_lab.Exec.{value_error, Result, ok, err}
use agent_identity_lab.Gateway.{GatewayRequest}

-- A reply, which is an object of texts.
abbrev pub Reply : Type 0
Reply = List (String × String)

abbrev header : String → GatewayRequest → String
header name request = get_or (lookup name request.headers) ""

unfoldable pub confluence_tools : String → GatewayRequest → Reply
confluence_tools operation request =
    ("tool", "confluence")
    ∷ ("operation", operation)
    ∷ ("result", "Mock: " +s operation +s " completed successfully")
    ∷ ("trace_id", header "x-trace-id" request)
    ∷ []

module _ (load : String → Option Json) (shown : Json → String) where
  -- `await request.json()`, where the method has a body
  unfoldable pub body_of : GatewayRequest → Result Json
  body_of request =
      if request.method == "POST" || request.method == "PUT"
      then elim (load request.body) [
        | none ↦ err (value_error (text "JSONDecodeError"))
        | some body ↦ ok body
      ]
      else ok (obj end)

  -- What the GitHub tool shows, once the body is read.
  abbrev answer : String → GatewayRequest → Result Json → Result Reply
  answer operation request (err e) = err e
  answer operation request (ok body) = ok (
      ("tool", "github")
      ∷ ("operation", operation)
      ∷ ("result", "Mock: " +s operation +s " completed successfully")
      ∷ ("trace_id", header "x-trace-id" request)
      ∷ ("auth_header", header "authorization" request)
      ∷ ("body", shown body)
      ∷ [])

  unfoldable pub github_tools : String → GatewayRequest → Result Reply
  github_tools operation request = answer operation request (body_of request)
