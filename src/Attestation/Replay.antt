-- ===== src/Attestation/Replay.antt =====
-- Nonces are used once, and what a key signs its public key accepts.
use agent_identity_lab.Prelude.{
  ℕ, String, ◌≡◌, refl, ◌⊎◌, inl, inr, ◌≢◌, Bool, true, false, Option, none, some, List, [], ◌∷◌,
  arith, Bool-cases, eq_refl,
}
use agent_identity_lab.Prelude.Int.{pos, negsuc}
use agent_identity_lab.Json.{Json, Dict, str, truthy, get}
use agent_identity_lab.Exec.{Result, ok, err}
use agent_identity_lab.Attestation.{
  Primitives, PublicKey, rsa, other_kind, unsupported_algorithm, Moment, invalid, naive, aware,
  Verdict, Nonce, of_str, of_int, nonce_eq, hashed, seen, check_seen, check_nonce, check_time,
  check_moment, parse_issued_at, check_issued_at, check_signature, verify_key, verify,
  sign_attestation,
}
use agent_identity_lab.Attestation.Accepted.{
  accepted, IsAccepted, IsTimely, IsFreshNonce, IsComplete, verify-verified_iff,
  verify-verified_state, state-check_claims,
}

nonce_eq_refl : (n : Nonce) → nonce_eq n n ≡ true
nonce_eq_refl (of_str s) = eq_refl s
nonce_eq_refl (of_int (pos k)) = ground arith
nonce_eq_refl (of_int (negsuc k)) = ground arith

seen_head : (n : Nonce) (ms : List Nonce) → seen n (n ∷ ms) ≡ true
unfolding seen
seen_head n ms = ground (arith, nonce_eq_refl n)

-- What a call does to the set of nonces: nothing, or it adds the new nonce of its claims.
abbrev pub Adds : Dict → List Nonce → List Nonce → Type 0
Adds claims before after =
    (after ≡ before)
    ⊎ ((n : Nonce) × (hashed (get "nonce" claims) ≡ some n)
        × (seen n before ≡ false)
        × (after ≡ n ∷ before))

module _ (claims : Dict) (expected : String) (before : List Nonce) where
  check_seen-Adds :
      (o : Option Nonce)
      → hashed (get "nonce" claims) ≡ o
      → Adds claims before (check_seen o claims expected before).1
  check_seen-Adds none e = inl refl
  check_seen-Adds (some n) e = elim (Bool-cases (seen n before)) [
    | inl old ↦ inl (rw old refl)
    | inr new ↦ inr (n, e, new, rw new (state-check_claims claims expected (n ∷ before)))
  ]

  check_nonce-Adds : Adds claims before (check_nonce claims expected before).1
  unfolding check_nonce
  check_nonce-Adds = elim (Bool-cases (truthy (get "nonce" claims))) [
    | inl given ↦ rw given (check_seen-Adds (hashed (get "nonce" claims)) refl)
    | inr empty ↦ rw empty (inl refl)
  ]

  check_time-Adds :
      (moment : Moment) (now : ℕ)
      → Adds claims before (check_time moment now claims expected before).1
  unfolding check_time
  check_time-Adds invalid now = inl refl
  check_time-Adds naive now = inl refl
  check_time-Adds (aware t) now = ground (arith, check_nonce-Adds)

  check_moment-Adds :
      (o : Option Moment) (now : ℕ)
      → Adds claims before (check_moment o now claims expected before).1
  unfolding check_moment
  check_moment-Adds none now = inl refl
  check_moment-Adds (some moment) now = check_time-Adds moment now

  module _ (prims : Primitives) (now : ℕ) where
    check_issued_at-Adds : Adds claims before (check_issued_at prims now claims expected before).1
    unfolding check_issued_at
    check_issued_at-Adds =
        ground (arith, check_moment-Adds (parse_issued_at prims (get "issued_at" claims)) now)

    check_signature-Adds :
        (r : Result Bool)
        → Adds claims before (check_signature prims r now claims expected before).1
    unfolding check_signature
    check_signature-Adds (err e) = inl refl
    check_signature-Adds (ok false) = inl refl
    check_signature-Adds (ok true) = check_issued_at-Adds

    verify_key-Adds :
        (o : Option PublicKey) (signature : Json)
        → Adds claims before (verify_key prims o now claims signature expected before).1
    unfolding verify_key
    verify_key-Adds none signature = inl refl
    verify_key-Adds (some other_kind) signature = inl refl
    verify_key-Adds (some unsupported_algorithm) signature = inl refl
    verify_key-Adds (some (rsa key)) signature = check_signature-Adds _

-- A call, whatever its outcome, leaves the set of nonces alone or adds the one new nonce of its
-- claims.
pub verify-Adds :
    (prims : Primitives) (now : ℕ) (claims : Dict) (signature : Json) (pem expected : String)
    (before : List Nonce)
    → Adds claims before (verify prims now claims signature pem expected before).1
unfolding verify
verify-Adds prims now claims signature pem expected before =
    verify_key-Adds claims expected before prims now (prims.load_public pem) signature

-- The arguments of one call of `verify`.
pub record Call : Type 0 where
  pub now : ℕ
  pub claims : Dict
  pub signature : Json
  pub pem : String
  pub expected : String

module _ (prims : Primitives) where
  abbrev pub run : Call → List Nonce → Result Verdict × List Nonce
  run c = verify prims c.now c.claims c.signature c.pem c.expected

  -- The set of nonces after calls in the order of the list.
  abbrev pub run_all : List Call → List Nonce → List Nonce
  run_all [] nonces = nonces
  run_all (c ∷ cs) nonces = run_all cs (run c nonces).1

  seen-run :
      (n : Nonce) (c : Call) (before : List Nonce)
      → seen n before ≡ true
      → seen n (run c before).1 ≡ true
  unfolding seen
  seen-run n c before h =
      ground (arith, verify-Adds prims c.now c.claims c.signature c.pem c.expected before)

  seen-run_all :
      (n : Nonce) (cs : List Call) (before : List Nonce)
      → seen n before ≡ true
      → seen n (run_all cs before) ≡ true
  seen-run_all n [] before h = h
  seen-run_all n (c ∷ cs) before h = seen-run_all n cs (run c before).1 (seen-run n c before h)

  -- After a call that answered VERIFIED, and whatever calls come then, no call whose claims have
  -- the same nonce answers VERIFIED.
  pub verify-no_replay :
      (c d : Call) (between : List Call) (before : List Nonce)
      → (run c before).0 ≡ accepted
      → get "nonce" c.claims ≡ get "nonce" d.claims
      → (run d (run_all between (run c before).1)).0 ≢ accepted
  verify-no_replay c d between before first same again =
      let (n, a) =
        (verify-verified_iff prims c.now c.claims c.signature c.pem c.expected before).0 first in
      let state =
        verify-verified_state prims c.now c.claims c.signature c.pem c.expected before n a in
      let kept = seen-run_all n between (run c before).1 (rw state (seen_head n before)) in
      let (m, b) =
        (verify-verified_iff prims d.now d.claims d.signature d.pem d.expected
            (run_all between (run c before).1)).0
          again in
      cc (same, a.fresh.hashable, b.fresh.hashable, b.fresh.unseen, kept)

×_path {ℓ κ} : {A : Type ℓ} {B : Type κ} {p q : A × B} → p.0 ≡ q.0 → p.1 ≡ q.1 → p ≡ q
×_path e f = λ i. (e i, f i)

-- The two halves of a key: what the private half signs, the public half accepts.
pub record IsKeyPair (prims : Primitives) (private_pem public_pem : String) : Type 0 where
  pub secret : String
  pub shared : String
  pub private_loads : prims.load_private private_pem ≡ some secret
  pub public_loads : prims.load_public public_pem ≡ some (rsa shared)
  pub signs :
      (message : String)
      → (bytes : List ℕ) × (prims.from_hex (prims.sign_hex secret message) ≡ some bytes)
        × (prims.check shared bytes message ≡ true)

-- Timely, new and complete claims that are signed with the private half of a key pair are
-- answered VERIFIED under its public half, and use up their nonce.
pub verify-sign_attestation :
    (prims : Primitives) (now : ℕ) (claims : Dict) (private_pem public_pem expected : String)
    (before : List Nonce) (n : Nonce)
    → IsKeyPair prims private_pem public_pem
    → IsTimely prims now claims
    → IsFreshNonce claims before n
    → IsComplete claims expected
    → (hex : String) × (sign_attestation prims claims private_pem ≡ some hex)
      × (verify prims now claims (str hex) public_pem expected before ≡ (accepted, n ∷ before))
unfolding sign_attestation
verify-sign_attestation prims now claims private_pem public_pem expected before n pair timely fresh
      complete =
    let hex = prims.sign_hex pair.secret (prims.dumps claims) in
    let (bytes, decoded, checks) = pair.signs (prims.dumps claims) in
    let a : IsAccepted prims now claims (str hex) public_pem expected before n = record {
      signed = record {
        key = pair.shared;
        hex = hex;
        bytes = bytes;
        loaded = pair.public_loads;
        given = refl;
        decoded = decoded;
        checks = checks;
      };
      timely = timely;
      fresh = fresh;
      complete = complete;
    } in
    (
      hex,
      rw (pair.private_loads, sign_attestation),
      ×_path ((verify-verified_iff prims now claims (str hex) public_pem expected before).1 (n, a))
          (verify-verified_state prims now claims (str hex) public_pem expected before n a),
    )
