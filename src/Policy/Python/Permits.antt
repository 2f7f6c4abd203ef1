-- ===== src/Policy/Python/Permits.antt =====
-- What the Python evaluator permits, stated without the program's sets and early returns.
use agent_identity_lab.Prelude.{
  String, ◌≡◌, ◌≢◌, ◌⊎◌, ◌↔◌, inl, inr, Option, none, some, List, [], ◌∷◌, true, false, arith,
  is_empty, elem, Option-cases, eq_iff, eq_refl,
}
use agent_identity_lab.Common.{PolicyDecision}
use agent_identity_lab.Policy.{PolicyInput}
use agent_identity_lab.Policy.Python.{
  is_str, needs_write, required_scopes, approved_of, environment_of, effective_of, intersect,
  evaluate_known, evaluate,
}
use agent_identity_lab.Policy.Python.Scopes.{Granted, Granted-iff, not_empty_of_elem}

-- The conditions that the scopes are not part of.
pub record IsEligible (i : PolicyInput) (required : List String) : Type 0 where
  pub agent_active : i.agent.status ≡ some "active"
  pub blueprint_active : i.blueprint.status ≡ some "active"
  pub known : required_scopes i ≡ some required
  pub no_research_write :
      (i.blueprint.slug ≢ some "research-agent") ⊎ (needs_write required ≡ false)
  pub environment : (approved_of i ≡ []) ⊎ (elem (environment_of i) (approved_of i) ≡ true)

-- The whole condition: the operation is known and some scope survives every party.
abbrev pub IsPermitted : PolicyInput → Type 0
IsPermitted i =
    (required : List String) × IsEligible i required × ((s : String) × Granted i required s)

is_str_iff : (o : Option String) (s : String) → (is_str o s ≡ true) ↔ (o ≡ some s)
is_str_iff none s = (λ h. cc, λ h. cc)
is_str_iff (some t) s = (λ h. ground (arith, eq_iff t s), λ h. ground (arith, eq_iff t s))

-- A list that is not empty has a member.
member : (xs : List String) → is_empty xs ≡ false → (s : String) × (elem s xs ≡ true)
unfolding elem
member [] h = cc
member (x ∷ xs) h = (x, ground (arith, eq_refl x))

intersect_iff :
    (i : PolicyInput) (required : List String)
    → ((intersect i required).decision ≡ PolicyDecision.allow)
      ↔ (is_empty (effective_of i required) ≡ false)
unfolding intersect
intersect_iff i required = (λ h. ground arith, λ h. ground arith)

pub evaluate-eq-intersect :
    (i : PolicyInput) (required : List String)
    → IsEligible i required
    → evaluate i ≡ intersect i required
unfolding evaluate evaluate_known
evaluate-eq-intersect i required h = ground (
  arith,
  h,
  is_str_iff i.agent.status "active",
  is_str_iff i.blueprint.status "active",
  is_str_iff i.blueprint.slug "research-agent",
)

evaluate_known-IsEligible :
    (i : PolicyInput) (required : List String)
    → (evaluate_known i (some required)).decision ≡ PolicyDecision.allow
    → ((i.blueprint.slug ≢ some "research-agent") ⊎ (needs_write required ≡ false))
      × ((approved_of i ≡ []) ⊎ (elem (environment_of i) (approved_of i) ≡ true))
unfolding evaluate_known
evaluate_known-IsEligible i required h =
    ground (arith, is_str_iff i.blueprint.slug "research-agent")

pub evaluate-IsEligible :
    (i : PolicyInput)
    → (evaluate i).decision ≡ PolicyDecision.allow
    → (required : List String) × IsEligible i required
unfolding evaluate
evaluate-IsEligible i h = elim (Option-cases (required_scopes i)) [
  | inl unknown ↦ absurd (unfold evaluate_known in ground (arith, unknown))
  | inr (required, known) ↦ (
    required,
    ground (
      arith,
      is_str_iff i.agent.status "active",
      is_str_iff i.blueprint.status "active",
      evaluate_known-IsEligible i required,
    ),
  )
]

-- The Python evaluator allows a request exactly when the agent and the blueprint are active, the
-- operation is in its table, no research agent writes, the environment is approved or the
-- blueprint names none, and some scope is requested, held by the agent, allowed by the blueprint,
-- required by the operation and not withheld by the user.
pub evaluate-allow_iff :
    (i : PolicyInput) → ((evaluate i).decision ≡ PolicyDecision.allow) ↔ IsPermitted i
evaluate-allow_iff i = (to, from)
  where
    to : (evaluate i).decision ≡ PolicyDecision.allow → IsPermitted i
    to h =
        let (required, eligible) = evaluate-IsEligible i h in
        let allowed = rw (evaluate-eq-intersect i required eligible) at h in
        let (s, mem) = member (effective_of i required) ((intersect_iff i required).0 allowed) in
        (required, eligible, (s, (Granted-iff i required s).0 mem))

    from : IsPermitted i → (evaluate i).decision ≡ PolicyDecision.allow
    from (required, eligible, (s, granted)) = rw (evaluate-eq-intersect i required eligible) (
        (intersect_iff i required).1
          (not_empty_of_elem s (effective_of i required) ((Granted-iff i required s).1 granted)))
