-- ===== src/Policy/Tests.antt =====
-- The policy code run on concrete inputs, and each theorem at one of them.
use agent_identity_lab.Prelude.{
  String, ◌≡◌, refl, ◌≢◌, ◌⊎◌, ◌↔◌, none, some, List, [], ◌∷◌, true, false, elem, ends_with, lookup,
  sorted, to_set, ◌∩◌, ◌∖◌, arith,
}
use agent_identity_lab.Prelude.Sorted.{IsAscending}
use agent_identity_lab.Common.{PolicyDecision, text, with_str, with_strs}
use agent_identity_lab.Policy.{PolicyInput}
use agent_identity_lab.Policy.Tools.{tool_scope_map, tool_mappings, get_required_scopes}
use agent_identity_lab.Policy.Tools.Agreement.{registry_against_table}
use agent_identity_lab.Policy.Python.{
  tool_key, required_scopes, effective_of, intersect, evaluate_known, evaluate, denied,
}
use agent_identity_lab.Policy.Python.Scopes.{Granted}
use agent_identity_lab.Policy.Python.Permits.{IsPermitted, evaluate-allow_iff}
use agent_identity_lab.Policy.Python.Decision.{
  evaluate-scopes, evaluate-deny, evaluate-no_research_write,
}
use agent_identity_lab.Policy.Python.Extensional.{SameFacts, evaluate-ext}
use agent_identity_lab.Policy.Opa.{Opa, http_error}
use agent_identity_lab.Policy.Opa.Choice.{Allows, AgentAllows, adapter_evaluate-allow_iff}

policy_code : Unit {0}
unfolding evaluate evaluate_known required_scopes tool_key lookup intersect effective_of ◌∩◌ ◌∖◌
    to_set sorted elem ends_with
policy_code = tt

-- test_allow_read_for_active_agent, at a slug, an operation and the lists of scopes.
abbrev request : String → String → List String → List String → PolicyInput
request slug operation requested held = record {
  agent = record { id = none; status = some "active"; scopes = some held };
  blueprint = record {
    id = none;
    slug = some slug;
    status = some "active";
    max_scopes = some ("repo:read" ∷ "issues:write" ∷ []);
    approved_environments = some ("development" ∷ []);
    approved_models = none;
  };
  user = record { id = none; scopes = some [] };
  session = record { id = none; model_id = none; trace_id = none };
  runtime = record {
    environment = some "development";
    host_id = none;
    framework = none;
    framework_version = none;
    model_id = none;
    prompt_version = none;
  };
  tool_id = some "github";
  action = record { operation = some operation; requested_scopes = some requested };
  environment_name = some "development";
}

abbrev read_request : PolicyInput
read_request =
    request "support-agent" "search_code" ("repo:read" ∷ []) ("issues:write" ∷ "repo:read" ∷ [])

abbrev write_request : PolicyInput
write_request = request "research-agent" "create_issue" ("issues:write" ∷ []) ("issues:write" ∷ [])

read_allowed : (evaluate read_request).decision ≡ PolicyDecision.allow
unfolding policy_code
read_allowed = refl

read_scopes : (evaluate read_request).effective_scopes ≡ "repo:read" ∷ []
unfolding policy_code
read_scopes = refl

research_write-denied :
    evaluate write_request ≡ denied (text "Research agents cannot perform write operations")
unfolding policy_code
research_write-denied = refl

removed_named :
    (evaluate (request "x" "search_code" ("b" ∷ "a" ∷ "b" ∷ []) [])).reason
    ≡ with_strs "No scopes remain after intersection. Removed: {}" ("a" ∷ "b" ∷ [])
unfolding policy_code
removed_named = refl

unknown_named :
    (evaluate (request "x" "read_file" [] [])).reason
    ≡ with_str "Unknown tool or operation: {}" "github.read_file"
unfolding policy_code
unknown_named = refl

read_known : required_scopes read_request ≡ some ("repo:read" ∷ [])
unfolding policy_code
read_known = refl

evaluate-allow_iff_example :
    ((evaluate read_request).decision ≡ PolicyDecision.allow) ↔ IsPermitted read_request
evaluate-allow_iff_example = evaluate-allow_iff read_request

evaluate-scopes_example :
    IsAscending (evaluate read_request).effective_scopes
    × ((s : String)
        → (elem s (evaluate read_request).effective_scopes ≡ true)
          ↔ Granted read_request ("repo:read" ∷ []) s)
evaluate-scopes_example = evaluate-scopes read_request ("repo:read" ∷ []) read_known read_allowed

write_denied : (evaluate write_request).decision ≡ PolicyDecision.deny
unfolding policy_code
write_denied = refl

evaluate-deny_example :
    ((evaluate write_request).effective_scopes ≡ []) × ((evaluate write_request).obligations ≡ [])
evaluate-deny_example = evaluate-deny write_request write_denied

abbrev research_read : PolicyInput
research_read = request "research-agent" "search_code" ("repo:read" ∷ []) ("repo:read" ∷ [])

research_holds : elem "repo:read" (evaluate research_read).effective_scopes ≡ true
unfolding policy_code
research_holds = refl

evaluate-no_research_write_example : ends_with "repo:read" ":write" ≡ false
evaluate-no_research_write_example =
    evaluate-no_research_write research_read "repo:read" refl research_holds

abbrev repeated : PolicyInput
repeated =
    request "support-agent" "search_code" ("repo:read" ∷ "repo:read" ∷ [])
      ("issues:write" ∷ "repo:read" ∷ [])

once_or_twice : (s : String) → elem s ("repo:read" ∷ []) ≡ elem s ("repo:read" ∷ "repo:read" ∷ [])
unfolding elem
once_or_twice s = ground arith

repeated_same : SameFacts read_request repeated
repeated_same = record {
  agent_status = refl;
  blueprint_status = refl;
  slug = refl;
  tool = refl;
  operation = refl;
  environment = refl;
  approved = λ s. refl;
  requested = λ required s. once_or_twice s;
  agent_scopes = λ s. refl;
  blueprint_scopes = λ s. refl;
  user_scopes = λ s. refl;
}

evaluate-ext_example : evaluate read_request ≡ evaluate repeated
evaluate-ext_example = evaluate-ext read_request repeated repeated_same

abbrev unreachable : Opa
unreachable = record { query = λ i. http_error "refused"; health_status = none }

adapter_evaluate-allow_iff_example : Allows unreachable read_request ↔ (
    AgentAllows unreachable read_request
    ⊎ ((unreachable.health_status ≢ some 200)
        × ((evaluate read_request).decision ≡ PolicyDecision.allow)))
adapter_evaluate-allow_iff_example = adapter_evaluate-allow_iff unreachable read_request

read_file_registered : lookup "github.read_file" tool_mappings ≡ some ("repo:read" ∷ [])
unfolding lookup
read_file_registered = refl

registry_against_table_example :
    (lookup "github.read_file" tool_scope_map ≡ some ("repo:read" ∷ []))
    ⊎ (((◌≡◌ {A = String} "github.read_file" "github.read_file")
          ⊎ (◌≡◌ {A = String} "github.read_file" "confluence.update_page"))
        × (lookup "github.read_file" tool_scope_map ≡ none))
registry_against_table_example =
    registry_against_table "github.read_file" ("repo:read" ∷ []) read_file_registered

registry_runs :
    (get_required_scopes "confluence" "update_page" ≡ some ("pages:write" ∷ []))
    × (get_required_scopes "confluence" "delete" ≡ none)
unfolding get_required_scopes
registry_runs = (refl, refl)
