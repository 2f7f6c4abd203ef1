-- ===== src/Attestation/Reason.antt =====
-- A verified verdict has one reason.
use agent_identity_lab.Prelude.{
  ℕ, String, ◌≡◌, Bool, true, false, Option, none, some, List, ◌∷◌, arith, ap, ◌∙◌,
}
use agent_identity_lab.Attestation.Accepted.{accepted}
use agent_identity_lab.Json.{Json, Dict, get}
use agent_identity_lab.Common.{verified, Message, text}
use agent_identity_lab.Exec.{Result, ok, err}
use agent_identity_lab.Attestation.{
  Primitives, PublicKey, rsa, other_kind, unsupported_algorithm, Moment, invalid, naive, aware,
  Nonce, Verdict, hashed, check_claims, check_seen, check_nonce, check_time, check_moment,
  check_issued_at, parse_issued_at, check_signature, signature_ok, verify_key, verify,
}

-- An outcome that is verified only for the one reason.
abbrev OneReason : Result Verdict → Type 0
OneReason r = (reason : Message) → r ≡ ok (verified, reason) → reason ≡ text "All checks passed"

module _ (claims : Dict) (expected : String) where
  check_claims-OneReason : (before : List Nonce) → OneReason (check_claims claims expected before).0
  unfolding check_claims
  check_claims-OneReason before reason h = ground arith

  check_seen-OneReason :
      (n : Option Nonce) (before : List Nonce) → OneReason (check_seen n claims expected before).0
  check_seen-OneReason none before reason h = absurd (cc h)
  check_seen-OneReason (some n) before reason h =
      ground (arith, check_claims-OneReason (n ∷ before) reason)

  check_nonce-OneReason : (before : List Nonce) → OneReason (check_nonce claims expected before).0
  unfolding check_nonce
  check_nonce-OneReason before reason h =
      ground (arith, check_seen-OneReason (hashed (get "nonce" claims)) before reason)

  module _ (now : ℕ) (before : List Nonce) where
    check_time-OneReason :
        (moment : Moment) → OneReason (check_time moment now claims expected before).0
    unfolding check_time
    check_time-OneReason invalid reason h = absurd (ground arith)
    check_time-OneReason naive reason h = absurd (ground arith)
    check_time-OneReason (aware t) reason h = ground (arith, check_nonce-OneReason before reason)

    check_moment-OneReason :
        (moment : Option Moment) → OneReason (check_moment moment now claims expected before).0
    unfolding check_moment
    check_moment-OneReason none reason h = absurd (ground arith)
    check_moment-OneReason (some m) reason h = check_time-OneReason m reason h

    module _ (prims : Primitives) where
      check_issued_at-OneReason : OneReason (check_issued_at prims now claims expected before).0
      unfolding check_issued_at
      check_issued_at-OneReason reason h =
          ground
            (arith, check_moment-OneReason (parse_issued_at prims (get "issued_at" claims)) reason)

      check_signature-OneReason :
          (r : Result Bool) → OneReason (check_signature prims r now claims expected before).0
      unfolding check_signature
      check_signature-OneReason (err e) reason h = absurd (cc h)
      check_signature-OneReason (ok false) reason h = absurd (ground arith)
      check_signature-OneReason (ok true) reason h = check_issued_at-OneReason reason h

      verify_key-OneReason :
          (key : Option PublicKey) (signature : Json)
          → OneReason (verify_key prims key now claims signature expected before).0
      unfolding verify_key
      verify_key-OneReason none signature reason h = absurd (ground arith)
      verify_key-OneReason (some other_kind) signature reason h = absurd (ground arith)
      verify_key-OneReason (some unsupported_algorithm) signature reason h = absurd (cc h)
      verify_key-OneReason (some (rsa key)) signature reason h =
          check_signature-OneReason (signature_ok prims key signature (prims.dumps claims)) reason h

      -- A verified verdict is the one that the acceptance theorem speaks of.
      pub verify-accepted :
          (signature : Json) (pem : String) (reason : Message)
          → (verify prims now claims signature pem expected before).0 ≡ ok (verified, reason)
          → (verify prims now claims signature pem expected before).0 ≡ accepted
      unfolding verify
      verify-accepted signature pem reason h =
          h
          ∙ ap (λ m. ok (verified, m))
              (verify_key-OneReason (prims.load_public pem) signature reason h)
