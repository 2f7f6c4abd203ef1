-- ===== src/Models/Table.antt =====
-- A table as the list of its rows, oldest first, and what the ORM does with it by primary key.
pub mod Rows
use agent_identity_lab.Prelude.{
  ℕ, ◌≡◌, refl, Option, none, some, List, [], ◌∷◌, ◌++◌, map, arith, nat_eq, if◌then◌else◌, first,
}

-- The row `a`, else `b`.
abbrev pub or_else {ℓ} : {A : Type ℓ} → Option A → Option A → Option A
or_else none b = b
or_else (some a) b = some a

module _ {R : Type 0} (key : R → ℕ) where
  -- `session.get(Model, id)`
  unfoldable pub find : ℕ → List R → Option R
  find k rows = first (λ r. nat_eq (key r) k) rows

  -- A changed row, as the commit writes it back.
  unfoldable pub replace : R → List R → List R
  replace r rows = map (λ q. if nat_eq (key q) (key r) then r else q) rows

  pub find-append :
      (k : ℕ) (r : R) (rows : List R)
      → find k (rows ++ r ∷ []) ≡ or_else (find k rows) (if nat_eq (key r) k then some r else none)
  unfolding find
  find-append k r [] = ground arith
  find-append k r (q ∷ rows) = ground (arith, find-append k r rows)

  pub find_added :
      (r : R) (rows : List R) → find (key r) rows ≡ none → find (key r) (rows ++ r ∷ []) ≡ some r
  find_added r rows new_key = rw (find-append (key r) r rows, new_key) (ground arith)

  pub find-key : (k : ℕ) (r : R) (rows : List R) → find k rows ≡ some r → key r ≡ k
  unfolding find
  find-key k r [] e = cc
  find-key k r (q ∷ rows) e = ground (arith, find-key k r rows)

  -- What a table shows after one row was written back.
  abbrev pub updated : ℕ → R → Option R → Option R
  updated k r none = none
  updated k r (some q) = if nat_eq (key r) k then some r else some q

  pub find-replace :
      (k : ℕ) (r : R) (rows : List R) → find k (replace r rows) ≡ updated k r (find k rows)
  unfolding find replace
  find-replace k r [] = refl
  find-replace k r (q ∷ rows) = ground (arith, find-replace k r rows)
