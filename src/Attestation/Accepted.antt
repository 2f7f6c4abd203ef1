-- ===== src/Attestation/Accepted.antt =====
-- When `verify` answers `VERIFIED`.
use agent_identity_lab.Prelude.{
  ℕ, ◌*◌, ◌≤◌, String, ◌≡◌, refl, ◌⊎◌, ◌↔◌, inl, inr, Bool, true, false, not, Option, none, some,
  List, [], ◌∷◌, All, keep, arith, is_empty, replace_z, Option-cases, eq_iff, ap,
}
use agent_identity_lab.Json.{Json, Dict, str, truthy, json_is, get, has_key}
use agent_identity_lab.Common.{verified, text}
use agent_identity_lab.Exec.{Result, ok}
use agent_identity_lab.Attestation.{
  Primitives, PublicKey, rsa, other_kind, unsupported_algorithm, Moment, invalid, naive, aware,
  Nonce, hashed, seen, Verdict, required, missing_of, check_claims, check_nonce, distance,
  check_time, check_moment, max_clock_skew_seconds, parse_issued_at, check_issued_at, signature_ok,
  check_signature, verify_key, verify,
}

-- The nonce is new: `n` is what the set of nonces holds for it.
pub record IsFreshNonce (claims : Dict) (before : List Nonce) (n : Nonce) : Type 0 where
  pub given : truthy (get "nonce" claims) ≡ true
  pub hashable : hashed (get "nonce" claims) ≡ some n
  pub unseen : seen n before ≡ false

pub record IsComplete (claims : Dict) (expected : String) : Type 0 where
  pub agent : get "agent_id" claims ≡ str expected
  pub present : All (λ claim. has_key claim claims ≡ true) required

-- The date is a point of time within the allowed skew.
pub record IsTimely (prims : Primitives) (now : ℕ) (claims : Dict) : Type 0 where
  pub written : String
  pub issued_at : ℕ
  pub nonempty : truthy (str written) ≡ true
  pub claimed : get "issued_at" claims ≡ str written
  pub parsed : prims.from_iso (replace_z written) ≡ aware issued_at
  pub close : distance now issued_at ≤ max_clock_skew_seconds * 1000000

pub record IsSigned (prims : Primitives) (claims : Dict) (signature : Json) (pem : String)
    : Type 0 where
  pub key : String
  pub hex : String
  pub bytes : List ℕ
  pub loaded : prims.load_public pem ≡ some (rsa key)
  pub given : signature ≡ str hex
  pub decoded : prims.from_hex hex ≡ some bytes
  pub checks : prims.check key bytes (prims.dumps claims) ≡ true

abbrev pub accepted : Result Verdict
accepted = ok (verified, text "All checks passed")

json_is_iff : (v : Json) (s : String) → (json_is v s ≡ true) ↔ (v ≡ str s)
json_is_iff (str t) s = (λ h. ap str ((eq_iff t s).0 h), λ h. ground (arith, eq_iff t s))
json_is_iff _ s = (λ h. cc, λ h. cc)

keep_none :
    (p : String → Bool) (xs : List String)
    → (is_empty (keep (λ x. not (p x)) xs) ≡ true) ↔ All (λ x. p x ≡ true) xs
keep_none p [] = (λ h. tt, λ h. refl)
keep_none p (x ∷ xs) = (λ h. ground (arith, keep_none p xs), λ h. ground (arith, keep_none p xs))

missing_iff :
    (claims : Dict)
    → (is_empty (missing_of claims) ≡ true) ↔ All (λ claim. has_key claim claims ≡ true) required
unfolding missing_of
missing_iff claims = keep_none (λ claim. has_key claim claims) required

check_claims_iff :
    (claims : Dict) (expected : String) (before : List Nonce)
    → ((check_claims claims expected before).0 ≡ accepted) ↔ IsComplete claims expected
unfolding check_claims
check_claims_iff claims expected before = (to, from)
  where
    to : (check_claims claims expected before).0 ≡ accepted → IsComplete claims expected
    to h = record {
      agent = (json_is_iff (get "agent_id" claims) expected).0 (ground arith);
      present = (missing_iff claims).0 (ground arith);
    }

    from : IsComplete claims expected → (check_claims claims expected before).0 ≡ accepted
    from c =
        rw
          (
            (json_is_iff (get "agent_id" claims) expected).1 c.agent,
            (missing_iff claims).1 c.present,
          )
          refl

pub state-check_claims :
    (claims : Dict) (expected : String) (before : List Nonce)
    → (check_claims claims expected before).1 ≡ before
unfolding check_claims
state-check_claims claims expected before = ground arith

check_nonce-fresh :
    (claims : Dict) (expected : String) (before : List Nonce) (n : Nonce)
    → IsFreshNonce claims before n
    → check_nonce claims expected before ≡ check_claims claims expected (n ∷ before)
unfolding check_nonce
check_nonce-fresh claims expected before n f = rw (f.given, f.hashable, f.unseen) refl

accepted_fresh :
    (claims : Dict) (expected : String) (before : List Nonce)
    → (check_nonce claims expected before).0 ≡ accepted
    → (n : Nonce) × IsFreshNonce claims before n
unfolding check_nonce
accepted_fresh claims expected before h = elim (Option-cases (hashed (get "nonce" claims))) [
  | inl unhashable ↦ absurd (ground (arith, unhashable))
  | inr (n, e) ↦ (n, ground (arith, e))
]

module _ (prims : Primitives) (now : ℕ) (claims : Dict) (expected : String)
    (before : List Nonce) where
  check_issued_at-timely :
      IsTimely prims now claims
      → check_issued_at prims now claims expected before ≡ check_nonce claims expected before
  unfolding check_issued_at check_moment check_time parse_issued_at
  check_issued_at-timely t = rw (t.claimed, t.nonempty, t.parsed) (ground (arith, t.close))

  check_time-accepted :
      (moment : Moment)
      → (check_time moment now claims expected before).0 ≡ accepted
      → (issued_at : ℕ) × (moment ≡ aware issued_at)
        × (distance now issued_at ≤ max_clock_skew_seconds * 1000000)
  unfolding check_time
  check_time-accepted invalid h = absurd (ground arith)
  check_time-accepted naive h = absurd (ground arith)
  check_time-accepted (aware t) h = (t, refl, ground arith)

  issued_at-cases : (v : Json) → ((s : String) × (v ≡ str s)) ⊎ (parse_issued_at prims v ≡ none)
  unfolding parse_issued_at
  issued_at-cases (str s) = inl (s, refl)
  issued_at-cases _ = inr refl

  issued_text :
      (s : String)
      → get "issued_at" claims ≡ str s
      → (check_issued_at prims now claims expected before).0 ≡ accepted
      → (truthy (str s) ≡ true)
        × ((check_time (prims.from_iso (replace_z s)) now claims expected before).0 ≡ accepted)
  unfolding check_issued_at check_moment parse_issued_at
  issued_text s e h = ground (arith, e)

  accepted-IsTimely :
      (check_issued_at prims now claims expected before).0 ≡ accepted → IsTimely prims now claims
  unfolding check_issued_at check_moment
  accepted-IsTimely h = elim (issued_at-cases (get "issued_at" claims)) [
    | inr no_text ↦ absurd (ground (arith, no_text))
    | inl (s, e) ↦
        let (nonempty, timed) = issued_text s e h in
        let (t, parsed, close) = check_time-accepted (prims.from_iso (replace_z s)) timed in
        record {
          written = s;
          issued_at = t;
          nonempty = nonempty;
          claimed = e;
          parsed = parsed;
          close = close;
        }
  ]

  module _ (signature : Json) (pem : String) where
    verify-signed :
        IsSigned prims claims signature pem
        → verify prims now claims signature pem expected before
          ≡ check_issued_at prims now claims expected before
    unfolding verify verify_key signature_ok check_signature
    verify-signed s = rw (s.loaded, s.given, s.decoded, s.checks) refl

    key-cases :
        (loaded : Option PublicKey)
        → ((key : String) × (loaded ≡ some (rsa key)))
          ⊎ ((loaded ≡ none) ⊎ ((loaded ≡ some other_kind) ⊎ (loaded ≡ some unsupported_algorithm)))
    key-cases none = inr (inl refl)
    key-cases (some (rsa key)) = inl (key, refl)
    key-cases (some other_kind) = inr (inr (inl refl))
    key-cases (some unsupported_algorithm) = inr (inr (inr refl))

    -- What an accepted run of the signature's part has seen.
    checked_signature :
        (key : String) (v : Json)
        → (check_signature prims
            (signature_ok prims key v (prims.dumps claims))
            now
            claims
            expected
            before).0
          ≡ accepted
        → (hex : String) × (bytes : List ℕ) × (v ≡ str hex)
          × (prims.from_hex hex ≡ some bytes)
          × (prims.check key bytes (prims.dumps claims) ≡ true)
    unfolding signature_ok check_signature
    checked_signature key (str hex) h = elim (Option-cases (prims.from_hex hex)) [
      | inl bad ↦ absurd (ground (arith, bad))
      | inr (bytes, e) ↦ (hex, bytes, refl, e, ground (arith, e))
    ]
    checked_signature key _ h = absurd (ground arith)

    accepted-IsSigned :
        (verify prims now claims signature pem expected before).0 ≡ accepted
        → IsSigned prims claims signature pem
    unfolding verify verify_key
    accepted-IsSigned h = elim (key-cases (prims.load_public pem)) [
      | inr other ↦ absurd (ground arith)
      | inl (key, e) ↦
          let (hex, bytes, given, decoded, checks) =
            checked_signature key signature (ground (arith, e)) in
          record {
            key = key;
            hex = hex;
            bytes = bytes;
            loaded = e;
            given = given;
            decoded = decoded;
            checks = checks;
          }
    ]

-- The claims, the signature and the key pass every test of `verify`, and `n` is their nonce.
pub record IsAccepted (prims : Primitives) (now : ℕ) (claims : Dict) (signature : Json)
    (pem expected : String) (before : List Nonce) (n : Nonce) : Type 0 where
  pub signed : IsSigned prims claims signature pem
  pub timely : IsTimely prims now claims
  pub fresh : IsFreshNonce claims before n
  pub complete : IsComplete claims expected

module _ (prims : Primitives) (now : ℕ) (claims : Dict) (signature : Json) (pem expected : String)
    (before : List Nonce) where
  -- `verify` answers VERIFIED exactly when an RSA key loads and checks the signature of the
  -- claims' text, the date is within 300 seconds of the clock, the nonce is given and not seen
  -- before, the agent is the expected one and every required claim is there.
  pub verify-verified_iff :
      ((verify prims now claims signature pem expected before).0 ≡ accepted)
      ↔ ((n : Nonce) × IsAccepted prims now claims signature pem expected before n)
  verify-verified_iff = (to, from)
    where
      to :
          (verify prims now claims signature pem expected before).0 ≡ accepted
          → (n : Nonce) × IsAccepted prims now claims signature pem expected before n
      to h =
          let signed = accepted-IsSigned prims now claims expected before signature pem h in
          let h₁ = rw (verify-signed prims now claims expected before signature pem signed) at h in
          let timely = accepted-IsTimely prims now claims expected before h₁ in
          let h₂ = rw (check_issued_at-timely prims now claims expected before timely) at h₁ in
          let (n, fresh) = accepted_fresh claims expected before h₂ in
          let h₃ = rw (check_nonce-fresh claims expected before n fresh) at h₂ in
          (
            n,
            record {
              signed = signed;
              timely = timely;
              fresh = fresh;
              complete = (check_claims_iff claims expected (n ∷ before)).0 h₃;
            },
          )

      from :
          (n : Nonce) × IsAccepted prims now claims signature pem expected before n
          → (verify prims now claims signature pem expected before).0 ≡ accepted
      from (n, a) =
          rw
            (
              verify-signed prims now claims expected before signature pem a.signed,
              check_issued_at-timely prims now claims expected before a.timely,
              check_nonce-fresh claims expected before n a.fresh,
            )
            ((check_claims_iff claims expected (n ∷ before)).1 a.complete)

  -- Once `verify` has answered VERIFIED, the set holds what it held and the nonce of the claims.
  pub verify-verified_state :
      (n : Nonce)
      → IsAccepted prims now claims signature pem expected before n
      → (verify prims now claims signature pem expected before).1 ≡ n ∷ before
  verify-verified_state n a = rw (
    verify-signed prims now claims expected before signature pem a.signed,
    check_issued_at-timely prims now claims expected before a.timely,
    check_nonce-fresh claims expected before n a.fresh,
    state-check_claims claims expected (n ∷ before),
  )
