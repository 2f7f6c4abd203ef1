-- ===== src/Prelude/Sorted.antt =====
-- Membership in Python's sets and sorted lists, and the canonical form that `sorted(set)` is.
use agent_identity_lab.Prelude.Tests.{Bool-cases}
use agent_identity_lab.Prelude.Lists.{All, keep, is_empty}
use agent_identity_lab.Prelude.Texts.{str_lt}
use agent_identity_lab.Prelude.Order.{str_lt_irrefl, str_lt_trans, str_lt_total}
use agent_identity_lab.Prelude.Sets.{elem, to_set, ◌∩◌, ◌∖◌, insert, sorted}
use Prim.Native.String.{String}
use mathlib.Core.Path.{◌≡◌, refl, sym, ap₂, ◌∙◌}
use mathlib.Core.Logic.{inl, inr}
use mathlib.Core.Bool.{Bool, true, false, not, ◌&&◌, ◌||◌}
use mathlib.Core.List.{List, [], ◌∷◌}
use native.Mathlib.Omega.{arith}
use text.Mathlib.Text.{◌==◌}
use text.Mathlib.TextEquality.{eq_iff}
use text.Mathlib.TextPositions.{eq_refl}

-- The members of a comprehension whose condition agrees with `q` at the member.
elem-keep :
    (x : String) (p : String → Bool) (xs : List String) → elem x (keep p xs) ≡ elem x xs && p x
unfolding elem
elem-keep x p [] = refl
elem-keep x p (y ∷ ys) = elim (Bool-cases (x == y)) [
  | inl e ↦ rw ((eq_iff x y).0 e) (ground (arith, elem-keep x p ys, eq_iff x y, eq_refl y))
  | inr n ↦ ground (arith, elem-keep x p ys)
]

pub elem-∩ : (x : String) (xs ys : List String) → elem x (xs ∩ ys) ≡ elem x xs && elem x ys
unfolding ◌∩◌
elem-∩ x xs ys = elem-keep x (λ z. elem z ys) xs

pub elem-to_set : (x : String) (xs : List String) → elem x (to_set xs) ≡ elem x xs
unfolding to_set
elem-to_set x [] = refl
elem-to_set x (y ∷ ys) = ground (arith, elem-to_set x ys, eq_iff x y, elem-to_set y ys)

elem-insert : (x y : String) (ys : List String) → elem x (insert y ys) ≡ (x == y) || elem x ys
unfolding insert elem
elem-insert x y [] = refl
elem-insert x y (z ∷ zs) = ground (arith, elem-insert x y zs)

pub elem-sorted : (x : String) (xs : List String) → elem x (sorted xs) ≡ elem x xs
unfolding sorted elem
elem-sorted x [] = refl
elem-sorted x (y ∷ ys) = ground (arith, elem-insert x y (sorted ys), elem-sorted x ys)

-- No repetitions.
abbrev pub IsStrSet : List String → Type 0
IsStrSet [] = Unit
IsStrSet (x ∷ xs) = (elem x xs ≡ false) × IsStrSet xs

pub to_set-IsStrSet : (xs : List String) → IsStrSet (to_set xs)
unfolding to_set
to_set-IsStrSet [] = tt
to_set-IsStrSet (x ∷ xs) = ground (arith, to_set-IsStrSet xs)

keep-IsStrSet : (p : String → Bool) (xs : List String) → IsStrSet xs → IsStrSet (keep p xs)
keep-IsStrSet p [] h = tt
keep-IsStrSet p (x ∷ xs) h = ground (arith, keep-IsStrSet p xs, elem-keep x p xs)

pub ∩-IsStrSet : (xs ys : List String) → IsStrSet xs → IsStrSet (xs ∩ ys)
unfolding ◌∩◌
∩-IsStrSet xs ys = keep-IsStrSet (λ z. elem z ys) xs

-- Strictly ascending: each element is below all that follow.
abbrev pub IsAscending : List String → Type 0
IsAscending [] = Unit
IsAscending (x ∷ xs) = All (λ y. str_lt x y ≡ true) xs × IsAscending xs

All-insert :
    (x y : String) (ys : List String)
    → str_lt x y ≡ true
    → All (λ z. str_lt x z ≡ true) ys
    → All (λ z. str_lt x z ≡ true) (insert y ys)
unfolding insert
All-insert x y [] h hs = (h, tt)
All-insert x y (z ∷ zs) h (hz, hs) = ground (arith, All-insert x y zs h hs)

All-below :
    (x y : String) (ys : List String)
    → str_lt x y ≡ true
    → All (λ z. str_lt y z ≡ true) ys
    → All (λ z. str_lt x z ≡ true) ys
All-below x y [] h hs = tt
All-below x y (z ∷ zs) h (hz, hs) = (str_lt_trans x y z h hz, All-below x y zs h hs)

insert-IsAscending :
    (x : String) (ys : List String) → elem x ys ≡ false → IsAscending ys → IsAscending (insert x ys)
unfolding insert elem
insert-IsAscending x [] n h = (tt, tt)
insert-IsAscending x (y ∷ ys) n (above, h) = elim (Bool-cases (str_lt y x)) [
  | inl lt ↦ rw lt (All-insert y x ys lt above, insert-IsAscending x ys (ground arith) h)
  | inr ge ↦ ground (arith, All-below x y ys, str_lt_total x y, eq_iff x y, Bool-cases (str_lt x y))
]

pub sorted-IsAscending : (xs : List String) → IsStrSet xs → IsAscending (sorted xs)
unfolding sorted
sorted-IsAscending [] h = tt
sorted-IsAscending (x ∷ xs) (n, h) =
    insert-IsAscending x (sorted xs) (elem-sorted x xs ∙ n) (sorted-IsAscending xs h)

not-elem-above :
    (x : String) (xs : List String) → All (λ y. str_lt x y ≡ true) xs → elem x xs ≡ false
unfolding elem
not-elem-above x [] h = refl
not-elem-above x (y ∷ ys) (h, hs) =
    ground (arith, not-elem-above x ys hs, eq_iff x y, str_lt_irrefl x)

lt_of_elem :
    (x z : String) (xs : List String)
    → All (λ y. str_lt x y ≡ true) xs
    → elem z xs ≡ true
    → str_lt x z ≡ true
unfolding elem
lt_of_elem x z [] h e = cc
lt_of_elem x z (y ∷ ys) (h, hs) e = ground (arith, lt_of_elem x z ys hs, eq_iff z y)

head_eq :
    (x y : String) (xs ys : List String)
    → IsAscending (x ∷ xs)
    → IsAscending (y ∷ ys)
    → ((a : String) → elem a (x ∷ xs) ≡ elem a (y ∷ ys))
    → x ≡ y
unfolding elem
head_eq x y xs ys (ax, _) (ay, _) same = elim (Bool-cases (x == y)) [
  | inl e ↦ (eq_iff x y).0 e
  | inr n ↦ ground (
    arith,
    same x,
    same y,
    eq_refl x,
    eq_refl y,
    eq_iff x y,
    eq_iff y x,
    lt_of_elem x y xs ax,
    lt_of_elem y x ys ay,
    str_lt_trans x y x,
    str_lt_irrefl x,
  )
]

tail_same :
    (x y a : String) (xs ys : List String)
    → x ≡ y
    → IsAscending (x ∷ xs)
    → IsAscending (y ∷ ys)
    → elem a (x ∷ xs) ≡ elem a (y ∷ ys)
    → elem a xs ≡ elem a ys
unfolding elem
tail_same x y a xs ys e (ax, _) (ay, _) same = ground (
  arith,
  not-elem-above x xs ax,
  not-elem-above y ys ay,
  eq_iff a x,
  eq_iff a y,
  Bool-cases (a == x),
)

-- Strictly ascending lists with the same members are equal.
pub IsAscending-ext :
    (xs ys : List String)
    → IsAscending xs
    → IsAscending ys
    → ((a : String) → elem a xs ≡ elem a ys)
    → xs ≡ ys
unfolding elem
IsAscending-ext [] [] _ _ same = refl
IsAscending-ext [] (y ∷ ys) _ _ same = ground (arith, same y, eq_refl y)
IsAscending-ext (x ∷ xs) [] _ _ same = ground (arith, same x, eq_refl x)
IsAscending-ext (x ∷ xs) (y ∷ ys) ax ay same =
    let e = head_eq x y xs ys ax ay same in
    ap₂ ◌∷◌ e (IsAscending-ext xs ys ax.1 ay.1 (λ a. tail_same x y a xs ys e ax ay (same a)))

-- `sorted` of a set depends on its members alone.
pub sorted-ext :
    (xs ys : List String)
    → IsStrSet xs
    → IsStrSet ys
    → ((a : String) → elem a xs ≡ elem a ys)
    → sorted xs ≡ sorted ys
sorted-ext xs ys hx hy same =
    IsAscending-ext (sorted xs) (sorted ys) (sorted-IsAscending xs hx) (sorted-IsAscending ys hy)
      λ a. elem-sorted a xs ∙ same a ∙ sym (elem-sorted a ys)

-- A list with no members is empty.
pub eq-nil_of_elem : (xs : List String) → ((a : String) → elem a xs ≡ false) → xs ≡ []
unfolding elem
eq-nil_of_elem [] h = refl
eq-nil_of_elem (x ∷ xs) h = ground (arith, h x, eq_refl x)

pub elem-∖ : (x : String) (xs ys : List String) → elem x (xs ∖ ys) ≡ elem x xs && not (elem x ys)
unfolding ◌∖◌
elem-∖ x xs ys = elem-keep x (λ z. not (elem z ys)) xs

pub ∖-IsStrSet : (xs ys : List String) → IsStrSet xs → IsStrSet (xs ∖ ys)
unfolding ◌∖◌
∖-IsStrSet xs ys = keep-IsStrSet (λ z. not (elem z ys)) xs

pub is_empty-ext :
    (xs ys : List String) → ((a : String) → elem a xs ≡ elem a ys) → is_empty xs ≡ is_empty ys
unfolding elem
is_empty-ext [] [] same = refl
is_empty-ext [] (y ∷ ys) same = ground (arith, same y, eq_refl y)
is_empty-ext (x ∷ xs) [] same = ground (arith, same x, eq_refl x)
is_empty-ext (x ∷ xs) (y ∷ ys) same = refl
