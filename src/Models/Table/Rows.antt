-- ===== src/Models/Table/Rows.antt =====
-- Predicates on all rows of a table, unique keys, and what a new or a changed row does to them.
use agent_identity_lab.Prelude.{
  ℕ, ◌≡◌, refl, subst, Bool, true, false, Option, none, some, List, [], ◌∷◌, ◌++◌, All, any, arith,
  nat_eq, nat_eq_iff, is_some, Bool-cases, inl, inr, ◌∙◌,
}
use agent_identity_lab.Models.Table.{find, replace, find-append, find-replace, or_else, updated}

-- No two rows are the same to the test.
unfoldable pub IsUnique : {R : Type 0} → (R → R → Bool) → List R → Type 0
IsUnique same [] = Unit
IsUnique same (r ∷ rows) = (any (same r) rows ≡ false) × IsUnique same rows

module _ {R : Type 0} where
  pub All-map : (P Q : R → Type 0) (rows : List R) → ((r : R) → P r → Q r) → All P rows → All Q rows
  All-map P Q [] h k = tt
  All-map P Q (r ∷ rows) h (here, rest) = (h r here, All-map P Q rows h rest)

  pub All-append :
      (P : R → Type 0) (rows : List R) (r : R) → All P rows → P r → All P (rows ++ r ∷ [])
  All-append P [] r h k = (k, tt)
  All-append P (q ∷ rows) r (here, rest) k = (here, All-append P rows r rest k)

  pub IsUnique-append :
      (same : R → R → Bool) (rows : List R) (r : R)
      → IsUnique same rows
      → any (λ q. same q r) rows ≡ false
      → IsUnique same (rows ++ r ∷ [])
  unfolding IsUnique
  IsUnique-append same [] r h k = (refl, tt)
  IsUnique-append same (q ∷ rows) r (apart, rest) k =
      (apart_from rows apart, IsUnique-append same rows r rest (ground arith))
    where
      apart_from : (qs : List R) → any (same q) qs ≡ false → any (same q) (qs ++ r ∷ []) ≡ false
      apart_from [] h = ground arith
      apart_from (x ∷ qs) h = ground (arith, apart_from qs)

module _ {R : Type 0} (key : R → ℕ) where
  abbrev pub same_key : R → R → Bool
  same_key q r = nat_eq (key q) (key r)

  pub unused_key :
      (rows : List R) (r : R)
      → is_some (find key (key r) rows) ≡ false
      → any (λ q. same_key q r) rows ≡ false
  unfolding find
  unused_key [] r h = refl
  unused_key (q ∷ rows) r h = ground (arith, unused_key rows r)

  pub find-All :
      (P : R → Type 0) (rows : List R) (k : ℕ) (q : R) → All P rows → find key k rows ≡ some q → P q
  unfolding find
  find-All P [] k q h e = absurd (cc e)
  find-All P (r ∷ rows) k q (here, rest) e = elim (Bool-cases (nat_eq (key r) k)) [
    | inl same ↦ subst P (ground (arith, same)) here
    | inr other ↦ find-All P rows k q rest (ground (arith, other))
  ]

  pub All-replace :
      (P : R → Type 0) (rows : List R) (r : R) → All P rows → P r → All P (replace key r rows)
  unfolding replace
  All-replace P [] r h k = tt
  All-replace P (q ∷ rows) r (here, rest) k = (
    elim (Bool-cases (nat_eq (key q) (key r))) [ inl same ↦ rw same k | inr other ↦ rw other here ],
    All-replace P rows r rest k,
  )

  any-replace :
      (k : ℕ) (rows : List R) (r : R)
      → any (λ q. nat_eq k (key q)) (replace key r rows) ≡ any (λ q. nat_eq k (key q)) rows
  unfolding replace
  any-replace k [] r = refl
  any-replace k (q ∷ rows) r = ground (arith, any-replace k rows r)

  pub IsUnique-replace :
      (rows : List R) (r : R) → IsUnique same_key rows → IsUnique same_key (replace key r rows)
  unfolding replace IsUnique
  IsUnique-replace [] r h = tt
  IsUnique-replace (q ∷ rows) r (apart, rest) = (
    elim (Bool-cases (nat_eq (key q) (key r))) [
      | inl same ↦ rw same (
          any-replace (key r) rows r
          ∙ subst (λ k. any (λ x. nat_eq k (key x)) rows ≡ false)
              ((nat_eq_iff (key q) (key r)).0 same) apart)
      | inr other ↦ rw other (any-replace (key q) rows r ∙ apart)
    ],
    IsUnique-replace rows r rest,
  )

  -- A row that is there stays there.
  pub kept-append :
      (k : ℕ) (rows : List R) (r : R)
      → is_some (find key k rows) ≡ true
      → is_some (find key k (rows ++ r ∷ [])) ≡ true
  kept-append k rows r h = rw find-append (some_first (find key k rows) _ h)
    where
      some_first : (o p : Option R) → is_some o ≡ true → is_some (or_else o p) ≡ true
      some_first none p h = absurd (cc h)
      some_first (some a) p h = refl

  pub kept-replace :
      (k : ℕ) (rows : List R) (r : R)
      → is_some (find key k rows) ≡ true
      → is_some (find key k (replace key r rows)) ≡ true
  kept-replace k rows r h = rw find-replace (still (find key k rows) h)
    where
      still : (o : Option R) → is_some o ≡ true → is_some (updated key k r o) ≡ true
      still none h = absurd (cc h)
      still (some a) h = ground arith
