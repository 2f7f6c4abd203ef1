-- ===== src/Prelude/Texts.antt =====
-- Python's operations on `str` that the program calls: order, suffixes, splitting a prefix off.
use Prim.Native.Char.{code}
use Prim.Native.String
use Prim.Native.String.{String, [], ◌∷◌, slice}
use Prim.Native.Nat.{ℕ, zero, suc, ◌+◌, ◌/◌, ◌%◌}
use mathlib.Core.Bool.{Bool, true, false, ◌||◌, ◌&&◌}
use text.Mathlib.Text.{◌==◌, starts_with}
use agent_identity_lab.Prelude.Tests.{ltb, leb, nat_eq, if◌then◌else◌}

-- `s < t` on `str`: the first code points that differ decide.
unfoldable pub str_lt : String → String → Bool
str_lt s [] = false
str_lt [] (d ∷ t) = true
str_lt (c ∷ s) (d ∷ t) =
    let rest = str_lt s t in
    if ltb (code c) (code d) then true else if nat_eq (code c) (code d) then rest else false

-- `s.endswith(suffix)`
unfoldable pub ends_with : String → String → Bool
ends_with [] suffix = [] == suffix
ends_with (c ∷ s) suffix = (c ∷ s) == suffix || ends_with s suffix

infixl 65 ◌+s◌
-- Concatenation, as an f-string makes it.
abbrev pub ◌+s◌ : String → String → String
s +s t = String.◌++◌ s t

-- `s.replace("Z", "+00:00")`
unfoldable pub replace_z : String → String
replace_z [] = ""
replace_z (c ∷ s) =
    let rest = replace_z s in if nat_eq (code c) b'Z' then "+00:00" +s rest else c ∷ rest

-- `str(n)` of a natural number; the number itself is enough fuel, since it falls to a tenth.
digit_str : ℕ → String
digit_str n = slice "0123456789" n (n + 1)

nat_str_from : ℕ → ℕ → String
nat_str_from zero n = digit_str (n % 10)
nat_str_from (suc fuel) n =
    let front = nat_str_from fuel (n / 10) in
    if ltb n 10 then digit_str n else front +s digit_str (n % 10)

unfoldable pub nat_str : ℕ → String
unfolding nat_str_from digit_str
nat_str n = nat_str_from n n

-- `str.strip()` takes these characters off.
abbrev pub is_space : ℕ → Bool
is_space c =
    (leb 9 c && leb c 13)
    || (leb 28 c && leb c 32)
    || nat_eq c 133
    || nat_eq c 160
    || nat_eq c 5760
    || (leb 8192 c && leb c 8202)
    || nat_eq c 8232
    || nat_eq c 8233
    || nat_eq c 8239
    || nat_eq c 8287
    || nat_eq c 12288

unfoldable pub lstrip : String → String
lstrip [] = ""
lstrip (c ∷ s) = let rest = lstrip s in if is_space (code c) then rest else c ∷ s

unfoldable pub rstrip : String → String
rstrip [] = ""
rstrip (c ∷ s) = let rest = rstrip s in if is_space (code c) && rest == "" then "" else c ∷ rest

unfoldable pub strip : String → String
unfolding lstrip rstrip
strip s = rstrip (lstrip s)

-- `s.rstrip("/")`
unfoldable pub rstrip_slash : String → String
rstrip_slash [] = ""
rstrip_slash (c ∷ s) =
    let rest = rstrip_slash s in if nat_eq (code c) b'/' && rest == "" then "" else c ∷ rest

-- `needle in haystack`
unfoldable pub contains : String → String → Bool
contains needle [] = needle == ""
contains needle (c ∷ s) =
    let rest = contains needle s in if starts_with (c ∷ s) needle then true else rest
