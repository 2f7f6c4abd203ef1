-- ===== src/Policy/Opa.antt =====
-- opa_adapter.py and services/policy_service.py, and the choice between the two adapters
-- (`get_policy_adapter` of api/authorization.py). The Open Policy Agent is a service: what it
-- answers to a query is a parameter.
pub mod Choice
use agent_identity_lab.Prelude.{
  ℕ, nat_eq, String, Option, none, some, List, [], ◌∷◌, Bool, true, false, if◌then◌else◌, get_or,
  lookup,
}
use agent_identity_lab.Json.{
  Json, Dict, dict_of, nil, end, str, arr, obj, as_str, as_strs, truthy, get,
}
use agent_identity_lab.Common.{PolicyDecision, Message, text, with_str}
use agent_identity_lab.Exec.{Error, type_error, value_error, Result, ok, err}
use agent_identity_lab.Policy.{
  PolicyInput, PolicyOutput, AgentFacts, BlueprintFacts, UserFacts, SessionFacts, RuntimeFacts,
}
use agent_identity_lab.Policy.Python

-- A transport error or a bad status (`httpx.HTTPError`), a body that is no JSON, or a body.
pub data OpaReply : Type 0 where
  http_error : String → OpaReply
  not_json : OpaReply
  answer : Json → OpaReply

-- `PolicyOutput(...)`: pydantic refuses a field of another type with a `ValidationError`, which is a
-- `ValueError`.
abbrev pub validated :
    PolicyDecision
    → Option String
    → Option (List String)
    → Option (List String)
    → Option String
    → Result PolicyOutput
validated decision (some reason) (some scopes) (some obligations) (some version) = ok (record {
  decision = decision;
  reason = text reason;
  effective_scopes = scopes;
  obligations = obligations;
  policy_version = version;
})
validated decision reason scopes obligations version = err (value_error (text "ValidationError"))

-- `result.get(key, default)`
abbrev pub value_or : String → Dict → Json → Json
value_or key result default = get_or (lookup key result) default

-- The output for a decision and its reason, with what else the result says.
abbrev pub output_of : PolicyDecision → Json → Dict → Result PolicyOutput
output_of decision reason result =
    validated decision (as_str reason) (as_strs (value_or "effective_scopes" result (arr nil)))
      (as_strs (value_or "obligations" result (arr nil)))
      (as_str (value_or "policy_version" result (str "opa-0.0.0")))

-- What `evaluate` makes of a result that is an object.
unfoldable pub read_result : Dict → Result PolicyOutput
read_result result =
    if truthy (get "allow" result)
    then output_of PolicyDecision.allow (value_or "reason" result (str "Policy allowed")) result
    else output_of PolicyDecision.deny
        (value_or "deny_reason" result (value_or "reason" result (str "Policy denied"))) result

-- `result.get` raises on what is no object.
abbrev pub read_value : Json → Result PolicyOutput
read_value (obj fields) = read_result (dict_of fields)
read_value value = err type_error

-- `.get("result", {})` of the body, which raises where the body is no object.
abbrev pub read_body : Json → Result PolicyOutput
read_body (obj fields) = read_value (value_or "result" (dict_of fields) (obj end))
read_body body = err type_error

-- `OPAAdapter.evaluate`, from the reply; a body that is no JSON raises past the `except`.
unfoldable pub opa_evaluate : OpaReply → Result PolicyOutput
opa_evaluate (http_error exc) = ok (record {
  decision = PolicyDecision.deny;
  reason = with_str "Policy service unavailable: {}" exc;
  effective_scopes = [];
  obligations = [];
  policy_version = "opa-unavailable";
})
opa_evaluate not_json = err (value_error (text "not JSON"))
opa_evaluate (answer body) = read_body body

-- The agent at its query endpoint, and what its health endpoint answers: a status, or an exception.
pub record Opa : Type 0 where
  pub query : PolicyInput → OpaReply
  pub health_status : Option ℕ

-- `OPAAdapter.health`
unfoldable pub opa_health : Opa → Bool
opa_health opa = elim opa.health_status [ none ↦ false | some status ↦ nat_eq status 200 ]

-- `get_policy_adapter`: the agent where it is healthy, else the Python adapter.
pub data Adapter : Type 0 where
  opa_adapter python_adapter : Adapter

unfoldable pub get_policy_adapter : Opa → Adapter
unfolding opa_health
get_policy_adapter opa = if opa_health opa then opa_adapter else python_adapter

-- `PolicyAdapter.evaluate` of the adapter that was chosen.
unfoldable pub adapter_evaluate : Opa → Adapter → PolicyInput → Result PolicyOutput
adapter_evaluate opa opa_adapter i = opa_evaluate (opa.query i)
adapter_evaluate opa python_adapter i = ok (Python.evaluate i)

-- `PolicyService.authorize_tool_access`
unfoldable pub authorize_tool_access :
    Opa
    → Adapter
    → AgentFacts
    → BlueprintFacts
    → UserFacts
    → SessionFacts
    → RuntimeFacts
    → (tool_id operation : String) (requested_scopes : List String) (environment : String)
    → Result PolicyOutput
authorize_tool_access opa adapter agent blueprint user session runtime tool_id operation
      requested_scopes environment =
    adapter_evaluate opa adapter (record {
      agent = agent;
      blueprint = blueprint;
      user = user;
      session = session;
      runtime = runtime;
      tool_id = some tool_id;
      action = record { operation = some operation; requested_scopes = some requested_scopes };
      environment_name = some environment;
    })
