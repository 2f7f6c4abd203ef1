-- ===== src/Identity/Sessions/Completed.antt =====
-- When POST /v1/sessions returns: a request that passes every check is answered by a session.
use agent_identity_lab.Prelude.{
  ap, if◌then◌else◌, ℕ, ◌≤◌, ◌+◌, String, ◌≡◌, refl, true, false, Option, none, some, [], ◌∷◌, ◌++◌,
  arith, is_some, ◌==◌, ◌&&◌, nat_eq, nat_eq_iff, ltb, any, pop, nat_str, ◌+s◌,
}
use agent_identity_lab.Prelude.Int.{pos, leb_ℤ}
use agent_identity_lab.Json.{Json, Dict, as_str, get as get_value}
use agent_identity_lab.Common.{Settings}
use agent_identity_lab.Exec.{ok}
use agent_identity_lab.Models.{AgentSession, AgentBlueprint, RuntimeAttestation}
use agent_identity_lab.Models.Table.{find-append, or_else}
use agent_identity_lab.Attestation.{Primitives, Nonce}
use agent_identity_lab.Attestation.Accepted.{IsAccepted, verify-verified_iff, verify-verified_state}
use agent_identity_lab.Tokens.{Jwt, issue_session_token, session_claims, load_private_key}
use agent_identity_lab.Database.{
  World, Environment, find_agent, find_attestation, find_session, refers, attestation_fits,
  session_fits, add_attestation, add_session,
}
use agent_identity_lab.Identity.Sessions.{
  SessionCreateRequest, Opener, opener, check_delegation, check_grant, verify_now,
  store_attestation, attest, attestation_row, session_row, issue_now, open_session,
  service_create_session,
}
use agent_identity_lab.Identity.Sessions.Api.{signature_of, create_session}
use agent_identity_lab.Identity.Sessions.Opened.{IsOpener, IsDelegated}
use agent_identity_lab.Identity.Sessions.Guarantee.{IsOpened, create_session-IsOpened}

opener-completes :
    (id : ℕ) (w : World) (who : Opener) → IsOpener id w who → opener id w ≡ (ok who, w)
unfolding opener
opener-completes id w who op =
    rw
      (op.agent_found, op.agent_active, op.key, op.has_key, op.blueprint_found, op.blueprint_active)
      refl

-- What PyJWT documents of a private key and its algorithm: they sign any claims that are JSON.
pub record IsSigningKey (jwt : Jwt) (private_key algorithm : String) : Type 0 where
  pub encodes :
      (claims : Dict) → (token : String) × (jwt.encode claims private_key algorithm ≡ some token)

-- UUIDs that are drawn from here on are not in the tables.
pub record HasFreshIds (env : Environment) (w : World) : Type 0 where
  pub attestations : (k : ℕ) → w.draws ≤ k → find_attestation (env.uuid k) w.db ≡ none
  pub sessions : (k : ℕ) → w.draws ≤ k → find_session (env.uuid k) w.db ≡ none

module _ (settings : Settings) (env : Environment) (prims : Primitives) (jwt : Jwt) where
  abbrev attested : RuntimeAttestation → Nonce → World → World
  attested a n w = record w {
    db = record w.db { attestations = w.db.attestations ++ a ∷ [] };
    nonces = n ∷ w.nonces;
    draws = w.draws + 1 + 1 + 1;
  }

  attest-completes :
      (body : SessionCreateRequest) (claims : Dict) (signature : Json) (who : Opener) (w : World)
      (n : Nonce) (a : RuntimeAttestation)
      → IsOpener body.agent_id w who
      → IsAccepted prims
          (env.time w.draws)
          claims
          signature
          who.public_key
          (env.uuid_str body.agent_id)
          w.nonces
          n
      → attestation_row prims
          (env.uuid (w.draws + 1 + 1))
          body
          claims
          signature
          (env.time (w.draws + 1))
        ≡ some a
      → attestation_fits a ≡ true
      → is_some (find_attestation a.id w.db) ≡ false
      → any (λ q. q.nonce == a.nonce) w.db.attestations ≡ false
      → is_some (find_agent a.agent_id w.db) ≡ true
      → attest settings env prims jwt body claims signature who w ≡ (ok a, attested a n w)
  unfolding attest verify_now store_attestation add_attestation
  attest-completes body claims signature who w n a op accepts row fit new_id new_nonce agent =
      rw
        (
          (verify-verified_iff prims (env.time w.draws) claims signature who.public_key
                (env.uuid_str body.agent_id) w.nonces).1
              (n, accepts),
          verify-verified_state prims (env.time w.draws) claims signature who.public_key
              (env.uuid_str body.agent_id) w.nonces n accepts,
          row,
          fit,
          new_id,
          new_nonce,
          agent,
        )
        refl

  row_ids :
      (id : ℕ) (body : SessionCreateRequest) (claims : Dict) (signature : Json) (t : ℕ)
      (a : RuntimeAttestation)
      → attestation_row prims id body claims signature t ≡ some a
      → (a.id ≡ id)
        × (a.agent_id ≡ body.agent_id)
        × (as_str (get_value "nonce" claims) ≡ some a.nonce)
  unfolding attestation_row
  row_ids id body claims signature t a h = ground arith

  -- A delegation that is named is as the test wants it.
  abbrev pub Grants : Option ℕ → ℕ → World → Type 0
  Grants grant agent_id w =
      (id : ℕ) → grant ≡ some id → IsDelegated agent_id id (env.time w.draws) w

  -- The clock is read where a delegation is named.
  abbrev checked : Option ℕ → World → World
  checked none w = w
  checked (some id) w = record w { draws = w.draws + 1 }

  check_delegation-completes :
      (grant : Option ℕ) (agent_id : ℕ) (w : World)
      → Grants grant agent_id w
      → (check_delegation env grant agent_id w ≡ (ok tt, checked grant w))
        × (refers grant w.db ≡ true)
  unfolding check_delegation check_grant
  check_delegation-completes none agent_id w h = (refl, refl)
  check_delegation-completes (some id) agent_id w h =
      let d = h id refl in
      let in_time : ltb d.grant.expires_at (env.time w.draws) ≡ false =
        ground (arith, d.unexpired) in
      (
        rw (d.found, d.standing, in_time, (nat_eq_iff d.grant.agent_id agent_id).1 d.matching) refl,
        rw d.found refl,
      )

  open_session-completes :
      (body : SessionCreateRequest) (b : AgentBlueprint) (a : RuntimeAttestation) (w : World)
      (private_key : String)
      → load_private_key jwt settings ≡ ok private_key
      → IsSigningKey jwt private_key settings.jwt_algorithm
      → session_fits body.acting_user_id body.model_id body.prompt_version body.requested_scopes
        ≡ true
      → find_session (env.uuid (w.draws + 1 + 1)) w.db ≡ none
      → is_some (find_agent body.agent_id w.db) ≡ true
      → refers body.delegation_grant_id w.db ≡ true
      → is_some (find_attestation a.id w.db) ≡ true
      → (answer : AgentSession × String) × ((open_session settings env prims jwt body b a w).0
          ≡ ok answer)
  unfolding open_session issue_now add_session session_row issue_session_token
  open_session-completes body b a w private_key loads signs fit new_id agent grant attestation =
      let (token, encodes) = signs.encodes claims in
      ((row, token), rw (fit, new_id, agent, grant, attestation, loads, encodes) refl)
    where
      row : AgentSession
      row =
          session_row settings env prims jwt (env.uuid (w.draws + 1 + 1)) (env.time w.draws)
            (env.uuid (w.draws + 1)) body b a

      claims : Dict
      claims =
          session_claims jwt settings env.uuid_str (env.time (w.draws + 1 + 1 + 1)) row
            (b.slug +s ":v" +s nat_str b.version)

  checked-same :
      (grant : Option ℕ) (w : World)
      → ((checked grant w).db ≡ w.db) × (w.draws ≤ (checked grant w).draws)
  checked-same none w = (refl, omega arith)
  checked-same (some id) w = (refl, omega arith)

  is_some-some : {A : Type 0} (o : Option A) (x : A) → o ≡ some x → is_some o ≡ true
  is_some-some o x h = rw h refl

  Grants-later :
      (body : SessionCreateRequest) (w : World) (a : RuntimeAttestation) (n : Nonce)
      → ((id : ℕ)
          → body.delegation_grant_id ≡ some id
          → IsDelegated body.agent_id id (env.time (w.draws + 1 + 1 + 1)) w)
      → Grants body.delegation_grant_id body.agent_id (attested a n w)
  Grants-later body w a n h id named =
      let d = h id named in
      record {
        grant = d.grant;
        found = d.found;
        standing = d.standing;
        unexpired = d.unexpired;
        matching = d.matching;
      }

  -- The service, past the attestation.
  rest_completes :
      (body : SessionCreateRequest) (w : World) (who : Opener) (n : Nonce) (a : RuntimeAttestation)
      (private_key : String)
      → is_some (find_agent body.agent_id w.db) ≡ true
      → Grants body.delegation_grant_id body.agent_id (attested a n w)
      → HasFreshIds env w
      → load_private_key jwt settings ≡ ok private_key
      → IsSigningKey jwt private_key settings.jwt_algorithm
      → session_fits body.acting_user_id body.model_id body.prompt_version body.requested_scopes
        ≡ true
      → (answer : AgentSession × String) × ((open_session settings env prims jwt body who.blueprint
            a
            (checked body.delegation_grant_id (attested a n w))).0
          ≡ ok answer)
  rest_completes body w who n a private_key agent grants fresh loads signs fit =
      let u = attested a n w in
      let v = checked body.delegation_grant_id u in
      let (same, later) = checked-same body.delegation_grant_id u in
      let (_, refer) = check_delegation-completes body.delegation_grant_id body.agent_id u grants in
      open_session-completes body who.blueprint a v private_key loads signs fit
        (rw same (fresh.sessions (v.draws + 1 + 1) (omega (arith, later)))) (rw same agent)
        (rw same refer)
        (rw same (rw (find-append (λ r. r.id) a.id a w.db.attestations) (stored a w)))
    where
      stored :
          (a : RuntimeAttestation) (w : World)
          → is_some
              (or_else (find_attestation a.id w.db) (if nat_eq a.id a.id then some a else none))
            ≡ true
      stored a w = ground arith

  -- A POST /v1/sessions returns a session, and all that this guarantees, whenever its time to live is
  -- from 1 to 1800 seconds, the agent is active with a key and its blueprint active, the
  -- attestation is accepted under that key, its texts and those of the request fit the widths of
  -- the columns, no stored attestation has its nonce, a delegation that is named is there, standing,
  -- unexpired and for this agent, the UUIDs that are drawn are new, and the key that signs tokens
  -- loads and is a private key of the algorithm that is set.
  pub create_session-completes :
      (body : SessionCreateRequest) (w : World) (who : Opener) (n : Nonce) (a : RuntimeAttestation)
      (private_key : String)
      → leb_ℤ (pos 1) body.requested_ttl_seconds && leb_ℤ body.requested_ttl_seconds (pos 1800)
        ≡ true
      → IsOpener body.agent_id w who
      → IsAccepted prims
          (env.time w.draws)
          (pop "signature" body.runtime_attestation)
          (signature_of body.runtime_attestation)
          who.public_key
          (env.uuid_str body.agent_id)
          w.nonces
          n
      → attestation_row prims
          (env.uuid (w.draws + 1 + 1))
          body
          (pop "signature" body.runtime_attestation)
          (signature_of body.runtime_attestation)
          (env.time (w.draws + 1))
        ≡ some a
      → attestation_fits a ≡ true
      → session_fits body.acting_user_id body.model_id body.prompt_version body.requested_scopes
        ≡ true
      → any (λ q. q.nonce == a.nonce) w.db.attestations ≡ false
      → ((id : ℕ)
          → body.delegation_grant_id ≡ some id
          → IsDelegated body.agent_id id (env.time (w.draws + 1 + 1 + 1)) w)
      → HasFreshIds env w
      → load_private_key jwt settings ≡ ok private_key
      → IsSigningKey jwt private_key settings.jwt_algorithm
      → (answer : AgentSession × String) × (v : World) × (create_session settings env prims jwt body
            w
          ≡ (ok answer, v))
        × IsOpened settings env prims jwt body w answer v
  unfolding create_session service_create_session
  create_session-completes body w who n a private_key ttl op accepts row attestation_fit fit
        new_nonce grants fresh loads signs =
      let claims = pop "signature" body.runtime_attestation in
      let signature = signature_of body.runtime_attestation in
      let (same_id, same_agent, _) = row_ids _ body claims signature _ a row in
      let agent = is_some-some _ who.agent op.agent_found in
      let new_id : is_some (find_attestation a.id w.db) ≡ false =
        rw same_id (rw (fresh.attestations (w.draws + 1 + 1) (omega arith)) refl) in
      let attesting =
        attest-completes body claims signature who w n a op accepts row attestation_fit new_id
          new_nonce (rw same_agent agent) in
      let later = Grants-later body w a n grants in
      let (delegating, _) =
        check_delegation-completes body.delegation_grant_id body.agent_id (attested a n w) later in
      let (answer, opening) =
        rest_completes body w who n a private_key agent later fresh loads signs fit in
      let v = (create_session settings env prims jwt body w).1 in
      let returned : (create_session settings env prims jwt body w).0 ≡ ok answer =
        rw (ttl, opener-completes body.agent_id w who op, attesting, delegating, opening) refl in
      let done = ap (λ r. (r, v)) returned in
      (answer, v, done, create_session-IsOpened settings env prims jwt body w v answer done)
