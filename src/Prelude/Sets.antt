-- ===== src/Prelude/Sets.antt =====
-- Python's `set` of strings as a list without repetitions, `in`, `&` and `sorted`.
use mathlib.Core.Bool.{Bool, false, not, ◌||◌}
use mathlib.Core.List.{List, [], ◌∷◌}
use Prim.Native.String.{String}
use text.Mathlib.Text.{◌==◌}
use agent_identity_lab.Prelude.Tests.{if◌then◌else◌}
use agent_identity_lab.Prelude.Lists.{keep}
use agent_identity_lab.Prelude.Texts.{str_lt}

-- `x in xs`
unfoldable pub elem : String → List String → Bool
elem x [] = false
elem x (y ∷ ys) = x == y || elem x ys

-- `set(xs)`
unfoldable pub to_set : List String → List String
unfolding elem
to_set [] = []
to_set (x ∷ xs) = let rest = to_set xs in if elem x rest then rest else x ∷ rest

-- `xs & ys` and `xs - ys`
infixl 60 ◌∩◌ ◌∖◌
unfoldable pub ◌∩◌ : List String → List String → List String
unfolding elem
xs ∩ ys = keep (λ x. elem x ys) xs

unfoldable pub ◌∖◌ : List String → List String → List String
unfolding elem
xs ∖ ys = keep (λ x. not (elem x ys)) xs

unfoldable pub insert : String → List String → List String
unfolding str_lt
insert x [] = x ∷ []
insert x (y ∷ ys) = let rest = insert x ys in if str_lt y x then y ∷ rest else x ∷ y ∷ ys

unfoldable pub sorted : List String → List String
unfolding insert
sorted [] = []
sorted (x ∷ xs) = insert x (sorted xs)
