-- ===== src/Policy/Python/Decision.antt =====
-- The scopes that the Python evaluator hands out, and what a denial carries.
use agent_identity_lab.Prelude.{
  String, ◌≡◌, subst, refl, ◌⊎◌, ◌↔◌, inl, inr, Option, none, some, List, [], ◌∷◌, true, false,
  arith, elem, sorted, ends_with, eq_iff,
}
use agent_identity_lab.Prelude.Sorted.{elem-sorted, IsAscending, sorted-IsAscending}
use agent_identity_lab.Common.{PolicyDecision}
use agent_identity_lab.Policy.{PolicyInput}
use agent_identity_lab.Policy.Python.{
  needs_write, required_scopes, effective_of, intersect, evaluate_known, evaluate,
}
use agent_identity_lab.Policy.Python.Scopes.{Granted, Granted-iff, effective_of-IsStrSet}
use agent_identity_lab.Policy.Python.Permits.{
  IsEligible, evaluate-IsEligible, evaluate-eq-intersect,
}

intersect-scopes :
    (i : PolicyInput) (required : List String)
    → (intersect i required).decision ≡ PolicyDecision.allow
    → (intersect i required).effective_scopes ≡ sorted (effective_of i required)
unfolding intersect
intersect-scopes i required h = ground arith

-- Where the operation's required scopes are `required` and the decision is to allow, the answer
-- holds exactly the scopes that every party grants, each once and in ascending order.
pub evaluate-scopes :
    (i : PolicyInput) (required : List String)
    → required_scopes i ≡ some required
    → (evaluate i).decision ≡ PolicyDecision.allow
    → IsAscending (evaluate i).effective_scopes
      × ((s : String) → (elem s (evaluate i).effective_scopes ≡ true) ↔ Granted i required s)
evaluate-scopes i required known h =
    let (found, eligible) = evaluate-IsEligible i h in
    let same : found ≡ required = cc (eligible.known) in
    let eligible' = subst (λ r. IsEligible i r) same eligible in
    let e = evaluate-eq-intersect i required eligible' in
    rw (e, intersect-scopes i required (rw e at h))
      (
        sorted-IsAscending _ (effective_of-IsStrSet i required),
        λ s. rw elem-sorted (Granted-iff i required s),
      )

intersect-deny :
    (i : PolicyInput) (required : List String)
    → (intersect i required).decision ≡ PolicyDecision.deny
    → ((intersect i required).effective_scopes ≡ []) × ((intersect i required).obligations ≡ [])
unfolding intersect
intersect-deny i required h = ground arith

evaluate_known-deny :
    (i : PolicyInput) (found : Option (List String))
    → (evaluate_known i found).decision ≡ PolicyDecision.deny
    → ((evaluate_known i found).effective_scopes ≡ []) × ((evaluate_known i found).obligations ≡ [])
unfolding evaluate_known
evaluate_known-deny i none h = (refl, refl)
evaluate_known-deny i (some required) h = ground (arith, intersect-deny i required)

-- A denial of the Python evaluator, on whichever branch, carries no scope and no obligation.
pub evaluate-deny :
    (i : PolicyInput)
    → (evaluate i).decision ≡ PolicyDecision.deny
    → ((evaluate i).effective_scopes ≡ []) × ((evaluate i).obligations ≡ [])
unfolding evaluate
evaluate-deny i h = ground (arith, evaluate_known-deny i (required_scopes i))

any-false :
    (s : String) (xs : List String)
    → needs_write xs ≡ false
    → elem s xs ≡ true
    → ends_with s ":write" ≡ false
unfolding elem
any-false s [] n h = cc
any-false s (x ∷ xs) n h = ground (arith, any-false s xs, eq_iff s x)

decision-cases : (d : PolicyDecision) → (d ≡ PolicyDecision.allow) ⊎ (d ≡ PolicyDecision.deny)
decision-cases PolicyDecision.allow = inl refl
decision-cases PolicyDecision.deny = inr refl

-- A blueprint called research-agent gets no scope that ends with `:write`, whatever is asked for.
pub evaluate-no_research_write :
    (i : PolicyInput) (s : String)
    → i.blueprint.slug ≡ some "research-agent"
    → elem s (evaluate i).effective_scopes ≡ true
    → ends_with s ":write" ≡ false
evaluate-no_research_write i s slug mem = elim (decision-cases (evaluate i).decision) [
  | inl allowed ↦
      let (required, eligible) = evaluate-IsEligible i allowed in
      let granted = ((evaluate-scopes i required eligible.known allowed).1 s).0 mem in
      elim eligible.no_research_write [
        | inl other ↦ absurd (other slug)
        | inr reads ↦ any-false s required reads granted.by_tool
      ]
  | inr refused ↦ absurd (unfold elem in cc (evaluate-deny i refused).0)
]
