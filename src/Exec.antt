-- ===== src/Exec.antt =====
-- Methods that may raise, over a state that they change. What was written before a raise stays
-- written, so the state comes back beside the error too; only the database transaction around a
-- request takes writes back (Database).
pub mod Keeps
pub mod Ensures
pub mod Never
use agent_identity_lab.Prelude.{
  ℕ, String, ◌≡◌, refl, Bool, true, false, Option, none, some, ◌⊎◌, inl, inr,
}
use agent_identity_lab.Common.{Message}

-- The exceptions: `HTTPException`, `SessionError`, `ValueError`, the database's `IntegrityError`
-- or `DataError`, and Python's `TypeError`, `AttributeError` or `KeyError`, the libraries' own
-- exceptions (`UnsupportedAlgorithm`, PyJWT's on encoding) among them, and `AssertionError`; nothing
-- here catches the last three.
pub data Error : Type 0 where
  http : ℕ → Message → Error
  session_error : Message → Error
  value_error : Message → Error
  database_error : Error
  type_error : Error
  assertion_error : Error

pub data Result {ℓ} (A : Type ℓ) : Type ℓ where
  ok : A → Result A
  err : Error → Result A

pub Result-cases {ℓ} :
    {A : Type ℓ} (r : Result A) → ((a : A) × (r ≡ ok a)) ⊎ ((e : Error) × (r ≡ err e))
Result-cases (ok a) = inl (a, refl)
Result-cases (err e) = inr (e, refl)

abbrev pub Exec {ℓ} : Type ℓ → Type ℓ → Type ℓ
Exec S A = S → Result A × S

module _ {ℓ} {S A : Type ℓ} where
  abbrev pub pure : A → Exec S A
  pure a s = (ok a, s)

  abbrev pub raise : Error → Exec S A
  raise e s = (err e, s)

  abbrev pub gets : (S → A) → Exec S A
  gets f s = (ok (f s), s)

  abbrev pub lift : Result A → Exec S A
  lift r s = (r, s)

  -- `if not value: raise`
  abbrev pub or_raise : Option A → Error → Exec S A
  or_raise none e = raise e
  or_raise (some a) e = pure a

abbrev pub modify {ℓ} : {S : Type ℓ} → (S → S) → Exec S (Unit {ℓ})
modify f s = (ok tt, f s)

abbrev pub raise_if {ℓ} : {S : Type ℓ} → Bool → Error → Exec S (Unit {ℓ})
raise_if true e = raise e
raise_if false e = pure tt

module _ {ℓ} {S A B : Type ℓ} where
  abbrev pub and_then : Result A → (A → Exec S B) → Exec S B
  and_then (ok a) f s = f a s
  and_then (err e) f s = (err e, s)

  infixl 5 ◌>>=◌ ◌>>◌
  abbrev pub ◌>>=◌ : Exec S A → (A → Exec S B) → Exec S B
  ◌>>=◌ m f s = let (r, s') = m s in and_then r f s'

  abbrev pub ◌>>◌ : Exec S A → Exec S B → Exec S B
  m >> n = m >>= λ _. n
