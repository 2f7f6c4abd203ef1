-- ===== src/Attestation/Tests.antt =====
-- The verifier run on concrete claims, and each theorem at one of them.
use agent_identity_lab.Prelude.{
  String, ◌≡◌, refl, ◌≢◌, ◌↔◌, true, none, some, [], ◌∷◌, ◌==◌, arith, lookup, replace_z,
  if◌then◌else◌,
}
use agent_identity_lab.Json.{Json, Dict, str, arr, cons, nil, truthy}
use agent_identity_lab.Common.{rejected, text, with_json, with_time}
use agent_identity_lab.Exec.{err, ok, type_error}
use agent_identity_lab.Attestation.{
  Primitives, rsa, invalid, naive, aware, Nonce, of_str, hashed, seen, missing_of, check_claims,
  check_nonce, check_time, check_moment, parse_issued_at, check_issued_at, signature_ok,
  check_signature, verify_key, verify, sign_attestation,
}
use agent_identity_lab.Attestation.Accepted.{
  accepted, IsAccepted, IsTimely, IsFreshNonce, IsComplete, verify-verified_iff,
}
use agent_identity_lab.Attestation.Replay.{
  Adds, verify-Adds, Call, run, run_all, verify-no_replay, IsKeyPair, verify-sign_attestation,
}

verifier_code : Unit {0}
unfolding verify verify_key check_signature signature_ok check_issued_at parse_issued_at
    check_moment check_time check_nonce check_claims missing_of seen hashed lookup replace_z truthy
verifier_code = tt

-- Keys are their own text, and every signature that decodes is accepted.
abbrev prims : Primitives
prims = record {
  dumps = λ d. "claims";
  load_public = λ pem. some (rsa pem);
  from_hex = λ s. if s == "zz" then none else some [];
  check = λ key bytes message. true;
  from_iso =
      λ s. if s == "2026-07-10" then naive else if s == "x" then invalid else aware 7000000000;
  load_private = λ pem. some pem;
  sign_hex = λ key message. "ab";
}

abbrev claims_at : Json → Json → Dict
claims_at issued_at nonce =
    ("agent_id", str "a1")
    ∷ ("container_digest", str "sha256:dev")
    ∷ ("git_commit", str "dev")
    ∷ ("environment", str "development")
    ∷ ("host_id", str "localhost")
    ∷ ("framework", str "hermes")
    ∷ ("framework_version", str "0.4.0")
    ∷ ("model", str "deepseek-chat")
    ∷ ("prompt_version", str "v1")
    ∷ ("issued_at", issued_at)
    ∷ ("nonce", nonce)
    ∷ []

abbrev good : Dict
good = claims_at (str "2026-07-10T00:00:00Z") (str "n1")

good_verified : verify prims 7300000000 good (str "ab") "key" "a1" [] ≡ (accepted, of_str "n1" ∷ [])
unfolding verifier_code
good_verified = refl

second_rejected :
    verify prims 7300000000 good (str "ab") "key" "a1" (of_str "n1" ∷ [])
    ≡ (ok (rejected, with_json "Nonce already seen: {}" (str "n1")), of_str "n1" ∷ [])
unfolding verifier_code
second_rejected = refl

late_rejected :
    verify prims 7300000001 good (str "ab") "key" "a1" []
    ≡ (ok (rejected, with_time "Timestamp skew too large: {}s" 300000001), [])
unfolding verifier_code
late_rejected = refl

bad_hex_rejected :
    verify prims 7300000000 good (str "zz") "key" "a1" []
    ≡ (ok (rejected, text "Signature verification failed"), [])
unfolding verifier_code
bad_hex_rejected = refl

-- A date without a zone, and a nonce that cannot be hashed, raise.
uncaught :
    ((verify prims 7300000000 (claims_at (str "2026-07-10") (str "n1")) (str "ab") "key" "a1" []).0
      ≡ err type_error)
    × ((verify prims 7300000000
          (claims_at (str "t") (arr (cons (str "n") nil)))
          (str "ab")
          "key"
          "a1"
          []).0
        ≡ err type_error)
unfolding verifier_code
uncaught = (refl, refl)

verify-verified_iff_example :
    ((verify prims 7300000000 good (str "ab") "key" "a1" []).0 ≡ accepted)
    ↔ ((n : Nonce) × IsAccepted prims 7300000000 good (str "ab") "key" "a1" [] n)
verify-verified_iff_example = verify-verified_iff prims 7300000000 good (str "ab") "key" "a1" []

verify-Adds_example : Adds good [] (verify prims 7300000000 good (str "ab") "key" "a1" []).1
verify-Adds_example = verify-Adds prims 7300000000 good (str "ab") "key" "a1" []

abbrev call : Call
call = record {
  now = 7300000000;
  claims = good;
  signature = str "ab";
  pem = "key";
  expected = "a1";
}

abbrev later_call : Call
later_call = record call { now = 7200000000; pem = "key2" }

call_verified : (run prims call []).0 ≡ accepted
unfolding verifier_code
call_verified = refl

verify-no_replay_example :
    (run prims later_call (run_all prims (later_call ∷ []) (run prims call []).1)).0 ≢ accepted
verify-no_replay_example =
    verify-no_replay prims call later_call (later_call ∷ []) [] call_verified refl

pair : IsKeyPair prims "key" "key"
pair = record {
  secret = "key";
  shared = "key";
  private_loads = refl;
  public_loads = refl;
  signs = λ message. ([], refl, refl);
}

good-IsTimely : IsTimely prims 7300000000 good
unfolding verifier_code
good-IsTimely = record {
  written = "2026-07-10T00:00:00Z";
  issued_at = 7000000000;
  nonempty = refl;
  claimed = refl;
  parsed = refl;
  close = omega arith;
}

good_fresh : IsFreshNonce good [] (of_str "n1")
unfolding verifier_code
good_fresh = record { given = refl; hashable = refl; unseen = refl }

good-IsComplete : IsComplete good "a1"
unfolding verifier_code
good-IsComplete = record {
  agent = refl;
  present = (refl, (refl, (refl, (refl, (refl, (refl, (refl, (refl, tt))))))));
}

verify-sign_attestation_example :
    (hex : String) × (sign_attestation prims good "key" ≡ some hex)
    × (verify prims 7300000000 good (str hex) "key" "a1" [] ≡ (accepted, of_str "n1" ∷ []))
verify-sign_attestation_example =
    verify-sign_attestation prims 7300000000 good "key" "key" "a1" [] (of_str "n1") pair
      good-IsTimely good_fresh good-IsComplete
