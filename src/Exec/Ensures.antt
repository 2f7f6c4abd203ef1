-- ===== src/Exec/Ensures.antt =====
-- What holds when an action has returned, one rule for each way to build the action. Reads of the
-- state and draws compute, and need no rule.
use agent_identity_lab.Prelude.{
  not, ◌≡◌, refl, subst, Bool, true, false, Option, none, some, if◌then◌else◌,
}
use agent_identity_lab.Exec.{
  Error, Result, ok, err, Exec, raise_if, or_raise, lift, and_then, ◌>>=◌,
}

-- If the outcome is a returned value, it and the state are as `Q` says.
abbrev pub Ensures {ℓ} : {S A : Type ℓ} → Result A × S → (A → S → Type ℓ) → Type ℓ
Ensures {A = A} p Q = (a : A) → p.0 ≡ ok a → Q a p.1

-- A test that did not raise.
pub of_not : (b : Bool) → not b ≡ false → b ≡ true
of_not true h = refl
of_not false h = absurd (cc h)

pub ok-injective {ℓ} : {A : Type ℓ} (a b : A) → ok a ≡ ok b → a ≡ b
ok-injective a b h = cc h

module _ {ℓ} {S A : Type ℓ} (Q : A → S → Type ℓ) where
  pub Ensures-ok : (a : A) (s : S) → Q a s → Ensures (ok a, s) Q
  Ensures-ok a s h b e = subst (λ x. Q x s) (ok-injective a b e) h

  pub Ensures-err : (e : Error) (s : S) → Ensures (err e, s) Q
  Ensures-err e s b h = absurd (cc h)

module _ {ℓ} {S A B : Type ℓ} (Q : A → S → Type ℓ) (R : B → S → Type ℓ) where
  ensures_and_then :
      (r : Result A) (t : S) (f : A → Exec S B)
      → Ensures (r, t) Q
      → ((a : A) → Q a t → Ensures (f a t) R)
      → Ensures (and_then r f t) R
  ensures_and_then (ok a) t f h k = k a (h a refl)
  ensures_and_then (err e) t f h k = Ensures-err R e t

  pub Ensures-bind :
      (m : Exec S A) (f : A → Exec S B) (s : S)
      → Ensures (m s) Q
      → ((a : A) → Q a (m s).1 → Ensures (f a (m s).1) R)
      → Ensures ((m >>= f) s) R
  Ensures-bind m f s h k = ensures_and_then (m s).0 (m s).1 f h k

module _ {ℓ} {S B : Type ℓ} (R : B → S → Type ℓ) where
  pub Ensures-or_raise :
      {A : Type ℓ} (o : Option A) (e : Error) (f : A → Exec S B) (s : S)
      → ((a : A) → o ≡ some a → Ensures (f a s) R)
      → Ensures ((or_raise o e >>= f) s) R
  Ensures-or_raise none e f s k = Ensures-err R e s
  Ensures-or_raise (some a) e f s k = k a refl

  pub Ensures-lift :
      {A : Type ℓ} (r : Result A) (f : A → Exec S B) (s : S)
      → ((a : A) → r ≡ ok a → Ensures (f a s) R)
      → Ensures ((lift r >>= f) s) R
  Ensures-lift (ok a) f s k = k a refl
  Ensures-lift (err e) f s k = Ensures-err R e s

  pub Ensures-raise_if :
      (b : Bool) (e : Error) (f : Unit {ℓ} → Exec S B) (s : S)
      → (b ≡ false → Ensures (f tt s) R)
      → Ensures ((raise_if b e >>= f) s) R
  Ensures-raise_if true e f s k = Ensures-err R e s
  Ensures-raise_if false e f s k = k refl

module _ {ℓ} {S : Type ℓ} (Q : Unit {ℓ} → S → Type ℓ) where
  -- The test at the end of a method.
  pub Ensures-last_raise_if :
      (b : Bool) (e : Error) (s : S) → (b ≡ false → Q tt s) → Ensures (raise_if b e s) Q
  Ensures-last_raise_if true e s k = Ensures-err Q e s
  Ensures-last_raise_if false e s k = Ensures-ok Q tt s (k refl)

module _ {ℓ} {S A : Type ℓ} (Q : A → S → Type ℓ) where
  -- An action that is refused on a test.
  pub Ensures-refused_if :
      (b : Bool) (e : Error) (s : S) (p : Result A × S)
      → (b ≡ false → Ensures p Q)
      → Ensures (if b then (err e, s) else p) Q
  Ensures-refused_if true e s p k = Ensures-err Q e s
  Ensures-refused_if false e s p k = k refl

  pub Ensures-if :
      (b : Bool) (m n : Exec S A) (s : S)
      → (b ≡ true → Ensures (m s) Q)
      → (b ≡ false → Ensures (n s) Q)
      → Ensures ((if b then m else n) s) Q
  Ensures-if true m n s h k = h refl
  Ensures-if false m n s h k = k refl
