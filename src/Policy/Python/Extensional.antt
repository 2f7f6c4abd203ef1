-- ===== src/Policy/Python/Extensional.antt =====
-- The Python evaluator reads its lists as sets.
use agent_identity_lab.Prelude.{
  String, ◌≡◌, Option, none, some, List, [], arith, elem, to_set, ◌∖◌, sorted, get_or,
}
use agent_identity_lab.Prelude.Sorted.{
  sorted-ext, elem-∖, ∖-IsStrSet, elem-to_set, to_set-IsStrSet, is_empty-ext,
}
use agent_identity_lab.Policy.{PolicyInput}
use agent_identity_lab.Policy.Python.{
  tool_key, required_scopes, effective_of, intersect, evaluate_known, evaluate, requested_of,
  approved_of, environment_of,
}
use agent_identity_lab.Policy.Python.Scopes.{elem-effective_of, effective_of-IsStrSet}

-- The same members, as Python's `set(xs) == set(ys)`.
abbrev pub SameMembers : List String → List String → Type 0
SameMembers xs ys = (s : String) → elem s xs ≡ elem s ys

-- Two inputs that differ at most in how their lists of scopes and environments are arranged.
pub record SameFacts (i j : PolicyInput) : Type 0 where
  pub agent_status : i.agent.status ≡ j.agent.status
  pub blueprint_status : i.blueprint.status ≡ j.blueprint.status
  pub slug : i.blueprint.slug ≡ j.blueprint.slug
  pub tool : i.tool_id ≡ j.tool_id
  pub operation : i.action.operation ≡ j.action.operation
  pub environment : i.runtime.environment ≡ j.runtime.environment
  pub approved : SameMembers (approved_of i) (approved_of j)
  pub requested :
      (required : List String) → SameMembers (requested_of i required) (requested_of j required)
  pub agent_scopes : SameMembers (get_or i.agent.scopes []) (get_or j.agent.scopes [])
  pub blueprint_scopes :
      SameMembers (get_or i.blueprint.max_scopes []) (get_or j.blueprint.max_scopes [])
  pub user_scopes : SameMembers (get_or i.user.scopes []) (get_or j.user.scopes [])

module _ (i j : PolicyInput) (same : SameFacts i j) where
  effective_same :
      (required : List String) → SameMembers (effective_of i required) (effective_of j required)
  effective_same required s = ground (
    arith,
    elem-effective_of s i required,
    elem-effective_of s j required,
    same.requested required s,
    same.agent_scopes s,
    same.blueprint_scopes s,
    same.user_scopes s,
    is_empty-ext (get_or i.user.scopes []) (get_or j.user.scopes []) same.user_scopes,
  )

  removed_same :
      (required : List String)
      → sorted (to_set (requested_of i required) ∖ effective_of i required)
        ≡ sorted (to_set (requested_of j required) ∖ effective_of j required)
  removed_same required =
      sorted-ext _ _
        (∖-IsStrSet _ (effective_of i required) (to_set-IsStrSet (requested_of i required)))
        (∖-IsStrSet _ (effective_of j required) (to_set-IsStrSet (requested_of j required)))
        λ s. simp (elem-∖, elem-to_set, same.requested required s, effective_same required s)

  intersect_same : (required : List String) → intersect i required ≡ intersect j required
  unfolding intersect
  intersect_same required = rw (
    is_empty-ext _ _ (effective_same required),
    removed_same required,
    sorted-ext _ _ (effective_of-IsStrSet i required) (effective_of-IsStrSet j required)
        (effective_same required),
  )

  tool_key_same : tool_key i ≡ tool_key j
  unfolding tool_key
  tool_key_same = rw (same.tool, same.operation)

  environment_same : environment_of i ≡ environment_of j
  environment_same = rw same.environment

  evaluate_known_same :
      (found : Option (List String)) → evaluate_known i found ≡ evaluate_known j found
  unfolding evaluate_known
  evaluate_known_same none = rw tool_key_same
  evaluate_known_same (some required) = ground (
    arith,
    same.slug,
    environment_same,
    is_empty-ext (approved_of i) (approved_of j) same.approved,
    same.approved (environment_of i),
    intersect_same required,
  )

  required_same : required_scopes i ≡ required_scopes j
  unfolding required_scopes
  required_same = rw tool_key_same

  -- Inputs that differ at most in the order and the repetitions of their lists get the same
  -- answer, reason included.
  pub evaluate-ext : evaluate i ≡ evaluate j
  unfolding evaluate
  evaluate-ext = rw (
    required_same,
    evaluate_known_same (required_scopes j),
    same.agent_status,
    same.blueprint_status,
  )
