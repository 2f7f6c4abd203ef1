-- ===== src/Gateway.antt =====
-- apps/mcp_gateway: GatewayAuth (middleware/auth.py), MCPForwarder (proxy/forwarder.py) and the
-- proxy route of main.py. The Identity API and the MCP server behind HTTP are parameters.
pub mod Forwarded
pub mod Headers
mod Tests
use Prim.Native.Nat.{ℕ, ◌+◌, ◌-◌}
use Prim.Native.String.{slice, len}
use package.text.Mathlib.Text.{starts_with}
use agent_identity_lab.Prelude.{
  String, Bool, true, false, not, ◌&&◌, ◌||◌, ◌==◌, Option, none, some, List, [], ◌∷◌, ◌++◌,
  if◌then◌else◌, get_or, leb, nat_eq, put, pop, lookup, strip, ◌+s◌, is_empty,
}
use agent_identity_lab.Json.{Json, Dict, dict_of, str, obj, as_str, json_is, truthy, get}
use agent_identity_lab.Common.{Settings, Message, text, with_str, with_json}
use agent_identity_lab.Exec.{
  Error, http, value_error, type_error, Result, ok, err, Exec, pure, raise, raise_if, or_raise,
  gets, lift, ◌>>=◌, ◌>>◌,
}
use agent_identity_lab.Policy.Tools.{get_required_scopes}
use agent_identity_lab.Tokens.{Jwt, validate_session_token}
use agent_identity_lab.Identity.Authorization.{token_handler}

-- A request to the gateway. Names of headers are in lower case, as the server framework gives
-- them, and each stands once.
pub record GatewayRequest : Type 0 where
  pub method : String
  pub headers : List (String × String)
  pub query_params : List (String × String)
  pub body : String

-- What the Identity API answers to POST /v1/authorize: a transport error, a status with a body
-- that is no JSON, or JSON but no object, or a status with an object.
pub data AuthorizeReply : Type 0 where
  transport_error : AuthorizeReply
  no_json no_object : ℕ → AuthorizeReply
  object : ℕ → Dict → AuthorizeReply

-- A request that the forwarder sends.
pub record Outgoing : Type 0 where
  pub method : String
  pub url : String
  pub headers : List (String × String)
  pub content : String

-- What the MCP server answers.
pub record McpReply : Type 0 where
  pub status : ℕ
  pub content_type : String
  pub content : String

pub record Network : Type 0 where
  -- POST {identity_api_url}/v1/authorize with session_token, tool and operation
  pub ask : (session_token tool operation : String) → AuthorizeReply
  -- none for a transport error
  pub send : Outgoing → Option McpReply
  -- `urllib.parse.urlencode(params, doseq=True)`
  pub urlencode : List (String × String) → String
  -- a JSON text as `JSONResponse` writes it again, none for what is no JSON
  pub rendered : String → Option String
  -- `str(value)`, for a value that is no text
  pub printed : Json → String

-- `header.removeprefix("Bearer ").strip()`
unfoldable pub bearer_of : String → String
bearer_of header = strip (slice header 7 (len header))

-- The requests that have been sent to the MCP server.
abbrev pub Log : Type 0
Log = List Outgoing

module _ (settings : Settings) (jwt : Jwt) (network : Network) where
  -- `GatewayAuth.authenticate`: the claims, with the token under `_raw_token`.
  unfoldable pub authenticate : ℕ → GatewayRequest → Exec Log Dict
  authenticate now request = do
    let header = get_or (lookup "authorization" request.headers) ""
    raise_if (not (starts_with header "Bearer "))
        (http 401 (text "Missing or invalid Authorization header"))
    claims ← lift (token_handler (validate_session_token jwt settings now (bearer_of header)))
    pure (put "_raw_token" (str (bearer_of header)) claims)

  -- The statuses of the Identity API's answer; what is no object has no `get`, and raises, as a good
  -- status without JSON does. The detail of an error is passed on; its text is left out.
  unfoldable pub read_reply : AuthorizeReply → Result Dict
  read_reply transport_error = err (http 502 (text "Authorization service error: "))
  read_reply (no_json status) =
      if leb 500 status
      then err (http 502 (text "Authorization service error"))
      else if leb 400 status
      then err (http status (text "response.text"))
      else err (value_error (text "not JSON"))
  read_reply (no_object status) =
      if leb 500 status then err (http 502 (text "Authorization service error")) else err type_error
  read_reply (object status body) =
      if leb 500 status
      then err (http 502 (text "Authorization service error"))
      else if leb 400 status
      then err (http status (text "detail"))
      else ok body

  -- `GatewayAuth.authorize`
  unfoldable pub authorize : Dict → String → String → Exec Log Dict
  authorize claims tool_id operation = do
    required ←
        or_raise (get_required_scopes tool_id operation)
          (http 403 (with_str "Unknown tool or operation: {}" (tool_id +s "." +s operation)))
    token ← or_raise (as_str (get "_raw_token" claims)) type_error
    lift (read_reply (network.ask token tool_id operation))

  -- `auth_result.get("downstream_credentials")`: what is no dict has no `get`, and raises.
  unfoldable pub credentials_of : Json → Result (Option Dict)
  credentials_of (obj fields) = ok (if truthy (obj fields) then some (dict_of fields) else none)
  credentials_of value = if truthy value then err type_error else ok none

  abbrev pub print : Json → String
  print (str s) = s
  print value = network.printed value

  -- `credentials.get(key, default)`
  abbrev pub value_or : String → Dict → String → Json
  value_or key credentials default = get_or (lookup key credentials) (str default)

  -- The client takes only texts as names and values of headers.
  abbrev pub header_of :
      Option String → Option String → List (String × String) → Result (List (String × String))
  header_of (some name) (some value) headers = ok (put name value headers)
  header_of none value headers = err type_error
  header_of (some name) none headers = err type_error

  unfoldable pub inject : Option Dict → List (String × String) → Result (List (String × String))
  inject none headers = ok headers
  inject (some credentials) headers =
      if json_is (value_or "type" credentials "bearer") "bearer"
      then ok (put "authorization" ("Bearer " +s print (value_or "token" credentials "")) headers)
      else if json_is (value_or "type" credentials "bearer") "header"
      then header_of (as_str (value_or "header_name" credentials "X-Api-Key"))
          (as_str (value_or "token" credentials "")) headers
      else ok headers

  unfoldable pub trace : GatewayRequest → List (String × String) → List (String × String)
  trace request headers =
      let trace_id = get_or (lookup "x-agent-trace-id" request.headers) "" in
      if trace_id == "" then headers else put "X-Trace-ID" trace_id headers

  -- `dict(request.headers)` without the two that the gateway takes off.
  unfoldable pub stripped_headers : GatewayRequest → List (String × String)
  stripped_headers request = pop "authorization" (pop "host" request.headers)

  unfoldable pub target_url : GatewayRequest → String → String → String
  target_url request tool_id operation =
      let url = "http://localhost:8003/" +s tool_id +s "/" +s operation in
      if is_empty request.query_params
      then url
      else url +s "?" +s network.urlencode request.query_params

  -- The reply of the gateway, 502 where there is none. JSON is read and written again; what only
  -- says that it is JSON raises.
  unfoldable pub relay : Option McpReply → Result McpReply
  relay none = ok (record { status = 502; content_type = "application/json"; content = "error" })
  relay (some reply) =
      if starts_with reply.content_type "application/json"
      then elim (network.rendered reply.content) [
        | none ↦ err (value_error (text "not JSON"))
        | some json ↦
            ok (record { status = reply.status; content_type = "application/json"; content = json })
      ]
      else ok reply

  unfoldable pub outgoing : GatewayRequest → String → String → List (String × String) → Outgoing
  outgoing request tool_id operation headers = record {
    method = request.method;
    url = target_url request tool_id operation;
    headers = trace request headers;
    content = request.body;
  }

  unfoldable pub send_out : Outgoing → Exec Log McpReply
  send_out sent log = (relay (network.send sent), log ++ sent ∷ [])

  -- `MCPForwarder.forward`
  unfoldable pub forward : GatewayRequest → String → String → Option Dict → Exec Log McpReply
  forward request tool_id operation downstream_credentials =
      lift (inject downstream_credentials (stripped_headers request)) >>= λ headers.
      send_out (outgoing request tool_id operation headers)

  -- Lines 59 to 70 and 76 of main.py: what comes before the forwarder.
  unfoldable pub admit : ℕ → GatewayRequest → String → String → Exec Log (Option Dict)
  admit now request tool_id operation = do
    claims ← authenticate now request
    auth_result ← authorize claims tool_id operation
    raise_if (not (json_is (get "decision" auth_result) "allow"))
        (http 403 (with_json "{}" (get_or (lookup "reason" auth_result) (str "Access denied"))))
    lift (credentials_of (get "downstream_credentials" auth_result))

  -- `proxy_mcp_request`
  unfoldable pub proxy_mcp_request : ℕ → GatewayRequest → String → String → Exec Log McpReply
  proxy_mcp_request now request tool_id operation =
      admit now request tool_id operation >>= λ downstream_credentials.
      forward request tool_id operation downstream_credentials
