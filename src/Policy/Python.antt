-- ===== src/Policy/Python.antt =====
-- python_adapter.py: the policy evaluator that intersects scopes.
pub mod Scopes
pub mod Permits
pub mod Decision
pub mod Extensional
use agent_identity_lab.Prelude.{
  String, Option, none, some, List, [], ◌∷◌, Bool, true, false, not, ◌&&◌, ◌==◌, if◌then◌else◌, any,
  is_empty, get_or, lookup, elem, to_set, ◌∩◌, ◌∖◌, sorted, ends_with, ◌+s◌,
}
use agent_identity_lab.Common.{PolicyDecision, Message, text, with_str, with_strs}
use agent_identity_lab.Policy.Tools.{tool_scope_map}
use agent_identity_lab.Policy.{PolicyInput, PolicyOutput}

-- `d.get(k) == s`, for a value that may be missing
abbrev pub is_str : Option String → String → Bool
is_str none s = false
is_str (some t) s = t == s

abbrev pub denied : Message → PolicyOutput
denied reason = record {
  decision = PolicyDecision.deny;
  reason = reason;
  effective_scopes = [];
  obligations = [];
  policy_version = "python-1.0";
}

-- The key of the table: `f"{tool_id}.{operation}"` where both are there.
unfoldable pub tool_key : PolicyInput → String
tool_key i =
    let tool_id = get_or i.tool_id "" in
    let operation = get_or i.action.operation "" in
    if not (tool_id == "") && not (operation == "") then tool_id +s "." +s operation else tool_id

unfoldable pub required_scopes : PolicyInput → Option (List String)
required_scopes i = lookup (tool_key i) tool_scope_map

abbrev pub needs_write : List String → Bool
needs_write required = any (λ scope. ends_with scope ":write") required

-- `env` and the approved environments, with the defaults of `get`
abbrev pub environment_of : PolicyInput → String
environment_of i = get_or i.runtime.environment ""

abbrev pub approved_of : PolicyInput → List String
approved_of i = get_or i.blueprint.approved_environments []

abbrev pub requested_of : PolicyInput → List String → List String
requested_of i required = get_or i.action.requested_scopes required

-- The intersection of the five sets; no user scopes means no restriction by the user.
unfoldable pub effective_of : PolicyInput → List String → List String
effective_of i required =
    let user_scopes = to_set (get_or i.user.scopes []) in
    let effective =
      to_set (requested_of i required)
      ∩ to_set (get_or i.agent.scopes [])
      ∩ to_set (get_or i.blueprint.max_scopes [])
      ∩ to_set required in
    if is_empty user_scopes then effective else effective ∩ user_scopes

-- The end of `evaluate`, where the scopes decide.
unfoldable pub intersect : PolicyInput → List String → PolicyOutput
intersect i required =
    let effective = effective_of i required in
    if is_empty effective
    then denied (
        with_strs "No scopes remain after intersection. Removed: {}"
          (sorted (to_set (requested_of i required) ∖ effective)))
    else record {
      decision = PolicyDecision.allow;
      reason = text "Permission intersection satisfied";
      effective_scopes = sorted effective;
      obligations = "log_request" ∷ [];
      policy_version = "python-1.0";
    }

unfoldable pub evaluate_known : PolicyInput → Option (List String) → PolicyOutput
evaluate_known i none = denied (with_str "Unknown tool or operation: {}" (tool_key i))
evaluate_known i (some required) =
    if is_str i.blueprint.slug "research-agent" && needs_write required
    then denied (text "Research agents cannot perform write operations")
    else if not (is_empty (approved_of i)) && not (elem (environment_of i) (approved_of i))
    then denied (with_str "Environment '{}' not in approved environments" (environment_of i))
    else intersect i required

unfoldable pub evaluate : PolicyInput → PolicyOutput
evaluate i =
    if not (is_str i.agent.status "active")
    then denied (text "Agent is not active")
    else if not (is_str i.blueprint.status "active")
    then denied (text "Blueprint is not active")
    else evaluate_known i (required_scopes i)
