-- ===== src/Json.antt =====
-- The JSON values that requests and tokens carry, and Python's tests on them. Numbers are
-- integers; floats are left out.
use agent_identity_lab.Prelude.{
  String, ◌≡◌, refl, Bool, true, false, not, ◌==◌, Option, none, some, List, [], ◌∷◌, is_some,
  lookup,
}
use agent_identity_lab.Prelude.Int.{ℤ, pos, eq_ℤ}

mutual
  pub data Json : Type 0 where
    null : Json
    bool : Bool → Json
    num : ℤ → Json
    str : String → Json
    arr : Items → Json
    obj : Fields → Json

  pub data Items : Type 0 where
    nil : Items
    cons : Json → Items → Items

  pub data Fields : Type 0 where
    end : Fields
    field : String → Json → Fields → Fields

-- A `dict[str, Any]`
abbrev pub Dict : Type 0
Dict = List (String × Json)

-- `bool(value)`
unfoldable pub truthy : Json → Bool
truthy null = false
truthy (bool b) = b
truthy (num n) = not (eq_ℤ n (pos 0))
truthy (str s) = not (s == "")
truthy (arr nil) = false
truthy (arr (cons v vs)) = true
truthy (obj end) = false
truthy (obj (field k v fs)) = true

-- `value == text`
abbrev pub json_is : Json → String → Bool
json_is (str t) s = t == s
json_is v s = false

-- The text of a string value
abbrev pub as_str : Json → Option String
as_str (str s) = some s
as_str v = none

-- `d.get(k)`, where a missing key and a null read alike, and `k in d`
abbrev pub get : String → Dict → Json
get k d = elim (lookup k d) [ none ↦ null | some v ↦ v ]

abbrev pub has_key : String → Dict → Bool
has_key k d = is_some (lookup k d)

-- The keys of an object
abbrev pub dict_of : Fields → Dict
dict_of end = []
dict_of (field key value fields) = (key, value) ∷ dict_of fields

-- A list of strings as a JSON array, and back: `none` where an element is no string.
abbrev pub strs : List String → Items
strs [] = nil
strs (s ∷ ss) = cons (str s) (strs ss)

abbrev pub append_str : Json → Option (List String) → Option (List String)
append_str (str s) (some ss) = some (s ∷ ss)
append_str v ss = none

unfoldable pub to_strs : Items → Option (List String)
to_strs nil = some []
to_strs (cons v vs) = append_str v (to_strs vs)

-- The texts of an array of texts
abbrev pub as_strs : Json → Option (List String)
as_strs (arr vs) = to_strs vs
as_strs v = none

pub to_strs-strs : (ss : List String) → to_strs (strs ss) ≡ some ss
unfolding to_strs
to_strs-strs [] = refl
to_strs-strs (s ∷ ss) = rw (to_strs-strs ss)
