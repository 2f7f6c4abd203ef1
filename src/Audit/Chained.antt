-- ===== src/Audit/Chained.antt =====
-- What `verify_chain` establishes, and that the writer keeps it.
use agent_identity_lab.Prelude.{
  ℕ, ◌+◌, suc, String, ◌≡◌, refl, subst, ap, inl, inr, ◌↔◌, true, ◌==◌, Option, none, some, List,
  [], ◌∷◌, ◌++◌, length, arith, eq_iff, Bool-cases,
}
use agent_identity_lab.Models.{AuditEvent}
use agent_identity_lab.Audit.{
  Hashing, same_hash, ChainReport, valid, wrong_previous, wrong_hash, compute_hash, verify_from,
  verify_chain, last_hash,
}

same_hash_iff : (a b : Option String) → (same_hash a b ≡ true) ↔ (a ≡ b)
same_hash_iff none none = (λ e. refl, λ e. refl)
same_hash_iff (some s) (some t) = (λ e. ap some ((eq_iff s t).0 e), λ e. ground (arith, eq_iff s t))
same_hash_iff none (some t) = (λ e. cc, λ e. cc)
same_hash_iff (some s) none = (λ e. cc, λ e. cc)

module _ (h : Hashing) where
  -- The event names the hash before it, and carries the hash of its payload.
  pub record IsLinked (prev : Option String) (e : AuditEvent) : Type 0 where
    pub previous : e.previous_hash ≡ prev
    pub hash : e.record_hash ≡ compute_hash h e.payload prev

  -- A chain of events, from the hash before it.
  pub data IsChain : Option String → List AuditEvent → Type 0 where
    empty : {prev : Option String} → IsChain prev []
    link :
        {prev : Option String} {e : AuditEvent} {es : List AuditEvent}
        → IsLinked prev e
        → IsChain (some e.record_hash) es
        → IsChain prev (e ∷ es)

  verify_from-valid :
      (i : ℕ) (prev : Option String) (es : List AuditEvent)
      → verify_from h i prev es ≡ valid
      → IsChain prev es
  unfolding verify_from
  verify_from-valid i prev [] e = empty
  verify_from-valid i prev (f ∷ fs) e =
      link
        (record {
          previous = (same_hash_iff f.previous_hash prev).0 (ground arith);
          hash = (eq_iff f.record_hash (compute_hash h f.payload prev)).0 (ground arith);
        })
        (verify_from-valid (i + 1) (some f.record_hash) fs (ground arith))

  chain-verified :
      (i : ℕ) (prev : Option String) (es : List AuditEvent)
      → IsChain prev es
      → verify_from h i prev es ≡ valid
  unfolding verify_from
  chain-verified i prev [] c = refl
  chain-verified i prev (f ∷ fs) (link l c) =
      rw
        (
          (same_hash_iff f.previous_hash prev).1 l.previous,
          (eq_iff f.record_hash (compute_hash h f.payload prev)).1 l.hash,
          chain-verified (i + 1) (some f.record_hash) fs c,
        )
        refl

  -- `verify_chain` answers valid exactly for the chains: every event names the hash of the one
  -- before it, the first names none, and every hash is that of the event's payload and the hash
  -- before it.
  pub verify_chain_iff : (es : List AuditEvent) → (verify_chain h es ≡ valid) ↔ IsChain none es
  unfolding verify_chain
  verify_chain_iff es = (verify_from-valid 0 none es, chain-verified 0 none es)

  pub snoc-IsChain :
      (prev : Option String) (es : List AuditEvent) (e : AuditEvent)
      → IsChain prev es
      → IsLinked (last_hash prev es) e
      → IsChain prev (es ++ e ∷ [])
  unfolding last_hash
  snoc-IsChain prev [] e c l = link l empty
  snoc-IsChain prev (f ∷ fs) e (link k c) l = link k (snoc-IsChain (some f.record_hash) fs e c l)

-- Where a report says that the chain breaks.
unfoldable pub broken_at : ChainReport → Option ℕ
broken_at valid = none
broken_at (wrong_previous i expected got) = some i
broken_at (wrong_hash i expected got) = some i

module _ (h : Hashing) where
  -- A list of events that is a chain up to its `k`-th, which does not belong there.
  pub record IsBroken (k : ℕ) (prev : Option String) (es : List AuditEvent) : Type 0 where
    pub front : List AuditEvent
    pub event : AuditEvent
    pub back : List AuditEvent
    pub split : es ≡ front ++ event ∷ back
    pub place : length front ≡ k
    pub before : IsChain h prev front
    pub unlinked : IsLinked h (last_hash prev front) event → ⊥

  verify_from-IsBroken :
      (i k : ℕ) (prev : Option String) (es : List AuditEvent)
      → broken_at (verify_from h i prev es) ≡ some k
      → (j : ℕ) × (k ≡ i + j) × IsBroken j prev es
  unfolding verify_from last_hash broken_at
  verify_from-IsBroken i k prev [] e = absurd (cc e)
  verify_from-IsBroken i k prev (f ∷ fs) e = elim (Bool-cases (same_hash f.previous_hash prev)) [
    | inr other ↦ (
      0,
      ground (arith, other),
      record {
        front = [];
        event = f;
        back = fs;
        split = refl;
        place = refl;
        before = empty;
        unlinked = λ l. cc ((same_hash_iff f.previous_hash prev).1 l.previous, other);
      },
    )
    | inl same ↦ elim (Bool-cases (f.record_hash == compute_hash h f.payload prev)) [
      | inr wrong ↦ (
        0,
        ground (arith, same, wrong),
        record {
          front = [];
          event = f;
          back = fs;
          split = refl;
          place = refl;
          before = empty;
          unlinked =
              λ l. cc ((eq_iff f.record_hash (compute_hash h f.payload prev)).1 l.hash, wrong);
        },
      )
      | inl good ↦
          let (j, at, b) =
            verify_from-IsBroken (i + 1) k (some f.record_hash) fs (ground (arith, same, good)) in
          (
            suc j,
            omega (arith, at),
            record {
              front = f ∷ b.front;
              event = b.event;
              back = b.back;
              split = ap (λ xs. f ∷ xs) b.split;
              place = ap suc b.place;
              before =
                  link
                    (record {
                      previous = (same_hash_iff f.previous_hash prev).0 same;
                      hash = (eq_iff f.record_hash (compute_hash h f.payload prev)).0 good;
                    })
                    b.before;
              unlinked = b.unlinked;
            },
          )
    ]
  ]

  -- Where `verify_chain` reports a break at `k`, the `k` events before it are a chain and the next
  -- event does not continue it.
  pub verify_chain-IsBroken :
      (es : List AuditEvent) (k : ℕ) → broken_at (verify_chain h es) ≡ some k → IsBroken k none es
  unfolding verify_chain
  verify_chain-IsBroken es k e =
      let (j, at, b) = verify_from-IsBroken 0 k none es e in
      subst (λ i. IsBroken i none es) (omega (arith, at)) b
