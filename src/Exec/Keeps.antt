-- ===== src/Exec/Keeps.antt =====
-- Relations between the state before and after an action, one rule for each way to build one.
use agent_identity_lab.Prelude.{Bool, true, false, Option, none, some, if◌then◌else◌}
use agent_identity_lab.Exec.{
  Error, Result, ok, err, Exec, pure, raise, raise_if, gets, or_raise, lift, ◌>>=◌, and_then,
}

-- `m` leads from every state to a related one, whether it returns or raises.
pub record Relates {ℓ} {S A : Type ℓ} (R : S → S → Type ℓ) (m : Exec S A) : Type ℓ where
  pub at : (s : S) → R s (m s).1

-- A preorder on states, for which chains of actions are related.
pub record IsPreorder {ℓ} {S : Type ℓ} (R : S → S → Type ℓ) : Type ℓ where
  pub reflexive : (s : S) → R s s
  pub transitive : (s t u : S) → R s t → R t u → R s u

module _ {ℓ} {S A : Type ℓ} (R : S → S → Type ℓ) (pre : IsPreorder R) where
  pub Relates-pure : (a : A) → Relates R (pure a)
  Relates-pure a = record { at = pre.reflexive }

  pub Relates-raise : (e : Error) → Relates R (raise {A = A} e)
  Relates-raise e = record { at = pre.reflexive }

  pub Relates-lift : (r : Result A) → Relates R (lift r)
  Relates-lift r = record { at = pre.reflexive }

  pub Relates-gets : (f : S → A) → Relates R (gets f)
  Relates-gets f = record { at = pre.reflexive }

  pub Relates-or_raise : (o : Option A) (e : Error) → Relates R (or_raise o e)
  Relates-or_raise none e = record { at = pre.reflexive }
  Relates-or_raise (some a) e = record { at = pre.reflexive }

  pub Relates-if :
      (b : Bool) (m n : Exec S A) → Relates R m → Relates R n → Relates R (if b then m else n)
  Relates-if true m n hm hn = hm
  Relates-if false m n hm hn = hn

module _ {ℓ} {S : Type ℓ} (R : S → S → Type ℓ) (pre : IsPreorder R) where
  pub Relates-raise_if : (b : Bool) (e : Error) → Relates R (raise_if b e)
  Relates-raise_if true e = record { at = pre.reflexive }
  Relates-raise_if false e = record { at = pre.reflexive }

module _ {ℓ} {S A B : Type ℓ} (R : S → S → Type ℓ) (pre : IsPreorder R) where
  and_then_relates :
      (s t : S) (r : Result A) (f : A → Exec S B)
      → R s t
      → ((a : A) → Relates R (f a))
      → R s (and_then r f t).1
  and_then_relates s t (ok a) f h k = pre.transitive s t (f a t).1 h ((k a).at t)
  and_then_relates s t (err e) f h k = h

  pub Relates-bind :
      (m : Exec S A) (f : A → Exec S B)
      → Relates R m
      → ((a : A) → Relates R (f a))
      → Relates R (m >>= f)
  Relates-bind m f hm hf = record { at = λ s. and_then_relates s (m s).1 (m s).0 f (hm.at s) hf }
