-- ===== src/Attestation.antt =====
-- packages/attestation/verifier.py. Keys, signatures, JSON text and ISO dates are parameters
-- (`Primitives`): the verifier passes them on and never looks into them.
pub mod Accepted
pub mod Reason
pub mod Replay
mod Tests
use agent_identity_lab.Prelude.{
  ℕ, ◌+◌, ◌-◌, ◌*◌, String, Bool, true, false, not, ◌&&◌, ◌||◌, ◌==◌, Option, none, some, List, [],
  ◌∷◌, if◌then◌else◌, keep, replace_z, is_empty, ltb, lookup,
}
use agent_identity_lab.Prelude.Int.{ℤ, pos, eq_ℤ}
use agent_identity_lab.Json.{
  Json, Dict, null, bool, num, str, arr, obj, truthy, json_is, get, has_key,
}
use agent_identity_lab.Common.{
  VerificationResult, verified, rejected, Message, text, with_json, with_json_str, with_strs,
  with_time,
}
use agent_identity_lab.Exec.{
  Error, type_error, Result, ok, err, Exec, pure, raise, gets, modify, ◌>>=◌, ◌>>◌,
}

-- A loaded public key: RSA, by what identifies it, or of another kind; or none, since
-- `UnsupportedAlgorithm` is raised, which no handler catches.
pub data PublicKey : Type 0 where
  rsa : String → PublicKey
  other_kind unsupported_algorithm : PublicKey

-- `datetime.fromisoformat`: no date, a date without a zone, or a point of time in microseconds.
pub data Moment : Type 0 where
  invalid naive : Moment
  aware : ℕ → Moment

pub record Primitives : Type 0 where
  -- `json.dumps(data, sort_keys=True)`
  pub dumps : Dict → String
  -- `load_pem_public_key`, `none` where it raises `ValueError`
  pub load_public : String → Option PublicKey
  -- `bytes.fromhex`, `none` where it raises `ValueError`
  pub from_hex : String → Option (List ℕ)
  -- `public_key.verify` with PKCS1v15 and SHA256, false where it raises `InvalidSignature`
  pub check : String → List ℕ → String → Bool
  pub from_iso : String → Moment
  -- `load_pem_private_key`, by the RSA key that it holds; `none` where it raises or is not RSA
  pub load_private : String → Option String
  -- `private_key.sign(...).hex()`
  pub sign_hex : String → String → String

abbrev pub max_clock_skew_seconds : ℕ
max_clock_skew_seconds = 300

-- An element of `NONCE_SEEN`. `True` is 1 in a Python set; lists and dicts cannot be elements.
pub data Nonce : Type 0 where
  of_str : String → Nonce
  of_int : ℤ → Nonce

abbrev pub nonce_eq : Nonce → Nonce → Bool
nonce_eq (of_str s) (of_str t) = s == t
nonce_eq (of_int m) (of_int n) = eq_ℤ m n
nonce_eq a b = false

unfoldable pub hashed : Json → Option Nonce
hashed null = none
hashed (bool b) = some (of_int (pos (if b then 1 else 0)))
hashed (num n) = some (of_int n)
hashed (str s) = some (of_str s)
hashed (arr vs) = none
hashed (obj fs) = none

unfoldable pub seen : Nonce → List Nonce → Bool
seen n [] = false
seen n (m ∷ ms) = nonce_eq n m || seen n ms

abbrev pub Verdict : Type 0
Verdict = VerificationResult × Message

abbrev pub reject : Message → Exec (List Nonce) Verdict
reject reason = pure (rejected, reason)

abbrev pub required : List String
required =
    "container_digest" ∷ "git_commit" ∷ "environment" ∷ "host_id" ∷ "framework"
    ∷ "framework_version" ∷ "model" ∷ "prompt_version" ∷ []

-- `[claim for claim in required if claim not in attestation_data]`
unfoldable pub missing_of : Dict → List String
missing_of claims = keep (λ claim. not (has_key claim claims)) required

-- The end of `verify`, past the nonce.
unfoldable pub check_claims : Dict → String → Exec (List Nonce) Verdict
check_claims claims expected_agent_id =
    if not (json_is (get "agent_id" claims) expected_agent_id)
    then reject
        (with_json_str "Agent ID mismatch: {} != {}" (get "agent_id" claims) expected_agent_id)
    else if not (is_empty (missing_of claims))
    then reject (with_strs "Missing required claims: {}" (missing_of claims))
    else pure (verified, text "All checks passed")

abbrev pub check_seen : Option Nonce → Dict → String → Exec (List Nonce) Verdict
check_seen none claims expected seen_before = (err type_error, seen_before)
check_seen (some n) claims expected seen_before =
    if seen n seen_before
    then reject (with_json "Nonce already seen: {}" (get "nonce" claims)) seen_before
    else check_claims claims expected (n ∷ seen_before)

unfoldable pub check_nonce : Dict → String → Exec (List Nonce) Verdict
check_nonce claims expected =
    if not (truthy (get "nonce" claims))
    then reject (text "Missing nonce claim")
    else check_seen (hashed (get "nonce" claims)) claims expected

-- |a - b|
abbrev pub distance : ℕ → ℕ → ℕ
distance a b = (a - b) + (b - a)

-- The time test; a date without a zone cannot be subtracted, and raises.
unfoldable pub check_time : Moment → ℕ → Dict → String → Exec (List Nonce) Verdict
check_time invalid now claims expected = reject (text "Invalid issued_at format")
check_time naive now claims expected = raise type_error
check_time (aware issued_at) now claims expected =
    if ltb (max_clock_skew_seconds * 1000000) (distance now issued_at)
    then reject (with_time "Timestamp skew too large: {}s" (distance now issued_at))
    else check_nonce claims expected

-- `none` where the claim is no text, on which `replace` raises.
unfoldable pub check_moment : Option Moment → ℕ → Dict → String → Exec (List Nonce) Verdict
check_moment none now claims expected = raise type_error
check_moment (some moment) now claims expected = check_time moment now claims expected

module _ (prims : Primitives) where
  -- `issued_at_str.replace` raises on what is no text.
  unfoldable pub parse_issued_at : Json → Option Moment
  parse_issued_at (str s) = some (prims.from_iso (replace_z s))
  parse_issued_at v = none

  unfoldable pub check_issued_at : ℕ → Dict → String → Exec (List Nonce) Verdict
  check_issued_at now claims expected =
      if not (truthy (get "issued_at" claims))
      then reject (text "Missing issued_at claim")
      else check_moment (parse_issued_at (get "issued_at" claims)) now claims expected

  -- The signature, which a request gives as any JSON value; `bytes.fromhex` raises `TypeError`
  -- on what is no text.
  unfoldable pub signature_ok : String → Json → String → Result Bool
  signature_ok key (str s) canonical =
      ok (elim (prims.from_hex s) [ none ↦ false | some sig ↦ prims.check key sig canonical ])
  signature_ok key v canonical = err type_error

  unfoldable pub check_signature : Result Bool → ℕ → Dict → String → Exec (List Nonce) Verdict
  check_signature (err e) now claims expected = raise e
  check_signature (ok false) now claims expected = reject (text "Signature verification failed")
  check_signature (ok true) now claims expected = check_issued_at now claims expected

  -- From the loaded key on.
  unfoldable pub verify_key :
      Option PublicKey → ℕ → Dict → Json → String → Exec (List Nonce) Verdict
  verify_key none now claims signature expected = reject (text "Signature verification failed")
  verify_key (some other_kind) now claims signature expected =
      reject (text "Unsupported public key type")
  verify_key (some unsupported_algorithm) now claims signature expected = raise type_error
  verify_key (some (rsa key)) now claims signature expected =
      check_signature (signature_ok key signature (prims.dumps claims)) now claims expected

  -- `AttestationVerifier.verify`, at the time `now` that the clock shows during the call.
  unfoldable pub verify : ℕ → Dict → Json → String → String → Exec (List Nonce) Verdict
  verify now claims signature public_key_pem expected =
      verify_key (prims.load_public public_key_pem) now claims signature expected

  -- `AttestationVerifier.sign_attestation`
  unfoldable pub sign_attestation : Dict → String → Option String
  sign_attestation claims private_key_pem = elim (prims.load_private private_key_pem) [
    | none ↦ none
    | some key ↦ some (prims.sign_hex key (prims.dumps claims))
  ]
