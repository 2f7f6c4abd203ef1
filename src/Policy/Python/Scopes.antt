-- ===== src/Policy/Python/Scopes.antt =====
-- The intersection of the Python evaluator, member by member.
use agent_identity_lab.Prelude.{
  String, ◌≡◌, refl, ◌⊎◌, ◌↔◌, inl, inr, List, [], ◌∷◌, true, false, ◌&&◌, ◌||◌, arith, get_or,
  is_empty, elem, to_set, Bool, if◌then◌else◌, Bool-cases,
}
use agent_identity_lab.Prelude.Sorted.{elem-∩, elem-to_set, IsStrSet, to_set-IsStrSet, ∩-IsStrSet}
use agent_identity_lab.Policy.{PolicyInput}
use agent_identity_lab.Policy.Python.{requested_of, effective_of}

pub not_empty_of_elem : (x : String) (xs : List String) → elem x xs ≡ true → is_empty xs ≡ false
unfolding elem
not_empty_of_elem x [] h = cc
not_empty_of_elem x (y ∷ ys) h = refl

pub is_empty-to_set : (xs : List String) → is_empty (to_set xs) ≡ is_empty xs
unfolding to_set
is_empty-to_set [] = refl
is_empty-to_set (x ∷ xs) = ground (arith, not_empty_of_elem x (to_set xs))

-- A scope survives exactly when every party grants it; no user scopes leave the user out.
pub elem-effective_of :
    (s : String) (i : PolicyInput) (required : List String)
    → elem s (effective_of i required)
      ≡ elem s (requested_of i required)
        && elem s (get_or i.agent.scopes [])
        && elem s (get_or i.blueprint.max_scopes [])
        && elem s required
        && (is_empty (get_or i.user.scopes []) || elem s (get_or i.user.scopes []))
unfolding effective_of
elem-effective_of s i required = elim (Bool-cases (is_empty (get_or i.user.scopes []))) [
  | inl none_given ↦ rw (is_empty-to_set, none_given) (simp (elem-∩, elem-to_set) (ground arith))
  | inr given ↦ rw (is_empty-to_set, given) (simp (elem-∩, elem-to_set) (ground arith))
]

if-IsStrSet :
    (b : Bool) (xs ys : List String) → IsStrSet xs → IsStrSet ys → IsStrSet (if b then xs else ys)
if-IsStrSet true xs ys hx hy = hx
if-IsStrSet false xs ys hx hy = hy

pub effective_of-IsStrSet :
    (i : PolicyInput) (required : List String) → IsStrSet (effective_of i required)
unfolding effective_of
effective_of-IsStrSet i required =
    let requested = to_set-IsStrSet (requested_of i required) in
    let by_agent = ∩-IsStrSet _ (to_set (get_or i.agent.scopes [])) requested in
    let by_blueprint = ∩-IsStrSet _ (to_set (get_or i.blueprint.max_scopes [])) by_agent in
    let by_tool = ∩-IsStrSet _ (to_set required) by_blueprint in
    let by_user = ∩-IsStrSet _ (to_set (get_or i.user.scopes [])) by_tool in
    if-IsStrSet (is_empty (to_set (get_or i.user.scopes []))) _ _ by_tool by_user

-- The meaning of the intersection for one scope.
pub record Granted (i : PolicyInput) (required : List String) (s : String) : Type 0 where
  pub requested : elem s (requested_of i required) ≡ true
  pub by_agent : elem s (get_or i.agent.scopes []) ≡ true
  pub by_blueprint : elem s (get_or i.blueprint.max_scopes []) ≡ true
  pub by_tool : elem s required ≡ true
  pub by_user :
      (is_empty (get_or i.user.scopes []) ≡ true) ⊎ (elem s (get_or i.user.scopes []) ≡ true)

pub Granted-iff :
    (i : PolicyInput) (required : List String) (s : String)
    → (elem s (effective_of i required) ≡ true) ↔ Granted i required s
Granted-iff i required s = (
  λ h. ground (arith, elem-effective_of s i required),
  λ g. ground (arith, elem-effective_of s i required, g),
)
