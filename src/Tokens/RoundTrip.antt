-- ===== src/Tokens/RoundTrip.antt =====
-- Tokens that are issued are valid until they expire, and carry the session.
use agent_identity_lab.Prelude.{
  ℕ, ◌≤◌, ◌<◌, String, ◌≡◌, refl, ap, subst, inl, inr, true, some, List, [], ◌∷◌, All, arith,
  lookup,
}
use agent_identity_lab.Prelude.Int.{pos}
use agent_identity_lab.Json.{Dict, num, str, get, has_key}
use agent_identity_lab.Common.{Settings}
use agent_identity_lab.Exec.{Result-cases, ok}
use agent_identity_lab.Models.{AgentSession}
use agent_identity_lab.Tokens.{
  Decoded, decoded, expired, wrong_audience, wrong_signature, invalid_token, Jwt, timestamp,
  load_private_key, load_public_key, session_claims, issue_session_token, required_claims, is_list,
  check_claims, check_decoded, decode_with, validate_session_token,
}

-- The claims that `jwt.decode` is told to require.
abbrev pub registered : List String
registered = "exp" ∷ "iat" ∷ "jti" ∷ "iss" ∷ "aud" ∷ "sub" ∷ []

-- What PyJWT documents of two keys that belong together: the claims are encoded with one, and the
-- token decodes with the other to them, if the registered claims are there, audience and issuer are the
-- expected ones, it was issued in the past and expires in the future.
-- It is stated of the one set of claims that is signed.
pub record IsKeyPair (jwt : Jwt) (private_key public_key algorithm : String) (claims : Dict)
    : Type 0 where
  pub token : String
  pub encodes : jwt.encode claims private_key algorithm ≡ some token
  pub decodes :
      (now iat exp : ℕ) (audience issuer : String)
      → All (λ claim. has_key claim claims ≡ true) registered
      → get "aud" claims ≡ str audience
      → get "iss" claims ≡ str issuer
      → get "iat" claims ≡ num (pos iat)
      → iat ≤ timestamp now
      → get "exp" claims ≡ num (pos exp)
      → timestamp now < exp
      → jwt.decode now token public_key algorithm audience issuer ≡ decoded claims

check_claims-cases :
    (given claims : Dict)
    → check_claims given ≡ ok claims
    → (given ≡ claims)
      × All (λ claim. has_key claim claims ≡ true) required_claims
      × (is_list (get "scopes" claims) ≡ true)
unfolding check_claims
check_claims-cases given claims h = ground arith

decoded-cases :
    (d : Decoded) (claims : Dict)
    → check_decoded d ≡ ok claims
    → (d ≡ decoded claims)
      × All (λ claim. has_key claim claims ≡ true) required_claims
      × (is_list (get "scopes" claims) ≡ true)
unfolding check_decoded
decoded-cases (decoded given) claims h =
    let (same, keys, scopes) = check_claims-cases given claims h in (ap decoded same, keys, scopes)
decoded-cases expired claims h = absurd (cc)
decoded-cases wrong_audience claims h = absurd (cc)
decoded-cases wrong_signature claims h = absurd (cc)
decoded-cases invalid_token claims h = absurd (cc)

module _ (jwt : Jwt) (settings : Settings) where
  -- A token that the issuer made at `issued`, under keys that belong together, is accepted at
  -- every later time before the second in which the session expires, with the issuer's claims.
  pub validate-issue :
      (uuid_str : ℕ → String) (issued now : ℕ) (session : AgentSession)
      (blueprint_id private_key public_key : String)
      → load_private_key jwt settings ≡ ok private_key
      → load_public_key jwt settings ≡ ok public_key
      → IsKeyPair jwt private_key public_key settings.jwt_algorithm
          (session_claims jwt settings uuid_str issued session blueprint_id)
      → timestamp issued ≤ timestamp now
      → timestamp now < timestamp session.expires_at
      → (token : String) × (issue_session_token jwt settings uuid_str issued session blueprint_id
          ≡ ok token)
        × (validate_session_token jwt settings now token
            ≡ ok (session_claims jwt settings uuid_str issued session blueprint_id))
  unfolding issue_session_token validate_session_token session_claims check_decoded check_claims
      lookup
  validate-issue uuid_str issued now session blueprint_id private_key public_key private_loads
        public_loads pair past alive =
      let claims = session_claims jwt settings uuid_str issued session blueprint_id in
      (
        pair.token,
        rw (private_loads, pair.encodes) refl,
        rw public_loads (
            rw
              (pair.decodes now (timestamp issued) (timestamp session.expires_at)
                settings.jwt_audience settings.jwt_issuer
                (refl, (refl, (refl, (refl, (refl, (refl, tt)))))) refl refl refl past refl alive)
              refl),
      )

  -- A token is let through only where the public key loads and the library decodes the token
  -- with it; the claims then hold an agent, a trace and a list of scopes.
  pub validate-claims :
      (now : ℕ) (token : String) (claims : Dict)
      → validate_session_token jwt settings now token ≡ ok claims
      → (key : String) × (load_public_key jwt settings ≡ ok key)
        × (jwt.decode now token key settings.jwt_algorithm settings.jwt_audience settings.jwt_issuer
            ≡ decoded claims)
        × All (λ claim. has_key claim claims ≡ true) required_claims
        × (is_list (get "scopes" claims) ≡ true)
  unfolding validate_session_token
  validate-claims now token claims h = elim (Result-cases (load_public_key jwt settings)) [
    | inr (e, failed) ↦ absurd (ground (arith, failed))
    | inl (key, loaded) ↦
        let (d, keys, scopes) =
          decoded-cases _ claims
            (subst (λ r. decode_with jwt settings now token r ≡ ok claims) loaded h) in
        (key, loaded, d, keys, scopes)
  ]
