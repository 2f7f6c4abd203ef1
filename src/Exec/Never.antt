-- ===== src/Exec/Never.antt =====
-- Actions that never end in one error, one rule for each way to build an action.
use agent_identity_lab.Prelude.{◌≡◌, ◌≢◌, refl, ap, Option, none, some}
use agent_identity_lab.Exec.{Error, Result, ok, err, Exec, pure, or_raise, and_then, ◌>>=◌}

-- From no state does `m` end in the error `bad`.
pub record Never {ℓ} {S A : Type ℓ} (bad : Error) (m : Exec S A) : Type ℓ where
  pub at : (s : S) → (m s).0 ≢ err bad

err-injective {ℓ} : {A : Type ℓ} (e f : Error) → Path (Result A) (err e) (err f) → e ≡ f
err-injective e f h = cc h

module _ {ℓ} {S A B : Type ℓ} (bad : Error) where
  -- What follows is only met with what the first action has returned.
  pub never_bind :
      (m : Exec S A) (f : A → Exec S B) (s : S)
      → (m s).0 ≢ err bad
      → ((a : A) → (m s).0 ≡ ok a → (f a (m s).1).0 ≢ err bad)
      → ((m >>= f) s).0 ≢ err bad
  never_bind m f s h k = go (m s).0 h k
    where
      go :
          (r : Result A)
          → r ≢ err bad
          → ((a : A) → r ≡ ok a → (f a (m s).1).0 ≢ err bad)
          → (and_then r f (m s).1).0 ≢ err bad
      go (ok a) h k = k a refl
      go (err e) h k = λ same. h (ap err (err-injective e bad same))

  pub Never-bind :
      (m : Exec S A) (f : A → Exec S B)
      → Never bad m
      → ((a : A) → Never bad (f a))
      → Never bad (m >>= f)
  Never-bind m f hm hf = record {
    at = λ s. never_bind m f s (hm.at s) (λ a returned. (hf a).at (m s).1);
  }

module _ {ℓ} {S A : Type ℓ} (bad : Error) where
  pub Never-pure : (a : A) → Never {S = S} bad (pure a)
  Never-pure a = record { at = λ s same. cc same }

  pub Never-or_raise : (o : Option A) (e : Error) → e ≢ bad → Never {S = S} bad (or_raise o e)
  Never-or_raise none e other = record { at = λ s same. other (err-injective e bad same) }
  Never-or_raise (some a) e other = record { at = λ s same. cc same }
