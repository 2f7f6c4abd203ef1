-- ===== src/Client/Opens.antt =====
-- The client's create_session against the Identity API: what it sends passes every check there.
use agent_identity_lab.Prelude.{
  ap, ℕ, ◌≤◌, ◌*◌, ◌+◌, String, ◌≡◌, refl, false, none, some, List, [], ◌==◌, Bool, true, arith,
  subst, Option, any, pop, put, contains, ◌&&◌, lookup, replace_z,
}
use agent_identity_lab.Prelude.Int.{pos}
use agent_identity_lab.Json.{Dict, str, truthy, get}
use agent_identity_lab.Common.{Settings, verified}
use agent_identity_lab.Exec.{ok}
use agent_identity_lab.Models.{AgentSession, RuntimeAttestation}
use agent_identity_lab.Attestation.{
  Primitives, Nonce, of_str, hashed, seen, aware, sign_attestation, distance,
  max_clock_skew_seconds,
}
use agent_identity_lab.Attestation.Accepted.{
  IsTimely, IsFreshNonce, IsComplete, verify-verified_iff,
}
use agent_identity_lab.Attestation.Replay.{IsKeyPair, verify-sign_attestation}
use agent_identity_lab.Tokens.{Jwt, load_private_key}
use agent_identity_lab.Database.{World, Environment, fits, attestation_fits, session_fits}
use agent_identity_lab.Database.Transaction.{with_db}
use agent_identity_lab.Identity.Sessions.{
  SessionCreateRequest, Opener, attestation_row, issued_at_of,
}
use agent_identity_lab.Identity.Sessions.Api.{SessionResponse, session_response, signature_of}
use agent_identity_lab.Identity.Sessions.Opened.{IsOpener}
use agent_identity_lab.Identity.Sessions.Guarantee.{IsOpened}
use agent_identity_lab.Identity.Sessions.Completed.{
  HasFreshIds, IsSigningKey, create_session-completes,
}
use agent_identity_lab.Client.{
  AgentIdentityClient, Machine, SessionArguments, attestation_claims, session_post, update,
  read_post, post_session, call, create_session,
}

-- `isoformat` of the machine and `fromisoformat` of the verifier: a time comes back as it was.
pub record HasIsoFormat (prims : Primitives) (machine : Machine) : Type 0 where
  pub nonempty : (t : ℕ) → (machine.isoformat t == "") ≡ false
  pub parses : (t : ℕ) → prims.from_iso (replace_z (machine.isoformat t)) ≡ aware t

signed_fits :
    (prims : Primitives) (claims : Dict) (pem hex : String)
    → sign_attestation prims claims pem ≡ some hex
    → ((key message : String) → fits 4096 (prims.sign_hex key message) ≡ true)
    → fits 4096 hex ≡ true
unfolding sign_attestation
signed_fits prims claims pem hex signing widths = go (prims.load_private pem) signing
  where
    go :
        (o : Option String)
        → elim o [ none ↦ none | some key ↦ some (prims.sign_hex key (prims.dumps claims)) ]
          ≡ some hex
        → fits 4096 hex ≡ true
    go none h = absurd (cc h)
    go (some key) h =
        let same : prims.sign_hex key (prims.dumps claims) ≡ hex = cc h in
        subst (λ x. fits 4096 x ≡ true) same (widths key (prims.dumps claims))

-- The texts of the client that the attestation's columns take; its constants fit.
abbrev pub attestation_texts_fit : SessionArguments → String → String → Bool
attestation_texts_fit args nonce signature =
    fits 64 args.environment
    && fits 128 args.model_id
    && fits 64 args.prompt_version
    && fits 128 nonce
    && fits 4096 signature

with_constants :
    (e m p n h : Bool)
    → e && m && p && n && h ≡ true
    → e && true && true && true && m && p && n && h ≡ true
with_constants e m p n h all = ground (arith, all)

texts_hold :
    (args : SessionArguments) (nonce hex : String)
    → fits 4096 hex ≡ true
    → fits 64 args.environment && fits 128 nonce ≡ true
    → session_fits args.acting_user_id args.model_id args.prompt_version args.requested_scopes
      ≡ true
    → attestation_texts_fit args nonce hex ≡ true
unfolding session_fits
texts_hold args nonce hex signed sent asked = ground (arith, signed, sent, asked)

module _ (prims : Primitives) (machine : Machine) (args : SessionArguments) where
  claims-IsTimely :
      (t now : ℕ) (nonce : String)
      → args.attestation_overrides ≡ []
      → HasIsoFormat prims machine
      → distance now t ≤ max_clock_skew_seconds * 1000000
      → IsTimely prims now (attestation_claims args (machine.isoformat t) nonce)
  unfolding attestation_claims lookup update truthy
  claims-IsTimely t now nonce plain iso close = record {
    written = machine.isoformat t;
    issued_at = t;
    nonempty = rw (iso.nonempty t) refl;
    claimed = rw plain refl;
    parsed = iso.parses t;
    close = close;
  }

  claims-IsFreshNonce :
      (issued_at nonce : String) (before : List Nonce)
      → args.attestation_overrides ≡ []
      → (nonce == "") ≡ false
      → seen (of_str nonce) before ≡ false
      → IsFreshNonce (attestation_claims args issued_at nonce) before (of_str nonce)
  unfolding attestation_claims lookup update truthy hashed
  claims-IsFreshNonce issued_at nonce before plain given unseen = record {
    given = rw (plain, given) refl;
    hashable = rw plain refl;
    unseen = unseen;
  }

  claims-IsComplete :
      (issued_at nonce expected : String)
      → args.attestation_overrides ≡ []
      → args.agent_id ≡ expected
      → IsComplete (attestation_claims args issued_at nonce) expected
  unfolding attestation_claims lookup update
  claims-IsComplete issued_at nonce expected plain same = record {
    agent = rw (plain, same) refl;
    present = rw plain (refl, (refl, (refl, (refl, (refl, (refl, (refl, (refl, tt))))))));
  }

  claimed_environment :
      (issued_at nonce : String)
      → args.attestation_overrides ≡ []
      → get "environment" (attestation_claims args issued_at nonce) ≡ str args.environment
  unfolding attestation_claims lookup update
  claimed_environment issued_at nonce plain = rw plain refl

  -- The API takes the signature off again.
  popped :
      (issued_at nonce hex : String)
      → args.attestation_overrides ≡ []
      → let sent = session_post args (attestation_claims args issued_at nonce) hex in
        (pop "signature" sent.runtime_attestation ≡ attestation_claims args issued_at nonce)
        × (signature_of sent.runtime_attestation ≡ str hex)
  unfolding session_post attestation_claims update pop put lookup
  popped issued_at nonce hex plain = (rw plain refl, rw plain refl)

  row_written :
      (k : ℕ) (body : SessionCreateRequest) (nonce hex : String) (t now : ℕ)
      → args.attestation_overrides ≡ []
      → HasIsoFormat prims machine
      → (a : RuntimeAttestation) × (attestation_row prims k body
            (attestation_claims args (machine.isoformat t) nonce)
            (str hex)
            now
          ≡ some a)
        × (a.nonce ≡ nonce)
        × (attestation_texts_fit args nonce hex ≡ true → attestation_fits a ≡ true)
  unfolding attestation_row issued_at_of attestation_claims update lookup attestation_fits fits
      contains
  row_written k body nonce hex t now plain iso = (
    record {
      id = k;
      agent_id = body.agent_id;
      container_digest = "sha256:dev";
      git_commit = "dev";
      environment = args.environment;
      host_id = "localhost";
      framework = "hermes";
      framework_version = "0.4.0";
      model_id = args.model_id;
      prompt_version = args.prompt_version;
      nonce = nonce;
      signature = hex;
      issued_at = t;
      verified_at = some now;
      verification_result = some verified;
    },
    rw (plain, iso.parses t) refl,
    refl,
    λ widths.
        with_constants (fits 64 args.environment) (fits 128 args.model_id)
          (fits 64 args.prompt_version) (fits 128 nonce) (fits 4096 hex) widths,
  )

-- What the client has sent and the API has done with it, from the tables that are committed.
pub record IsServed (settings : Settings) (env : Environment) (prims : Primitives) (jwt : Jwt)
    (args : SessionArguments) (id : ℕ) (w : World) (r : SessionResponse) (v : World) : Type 0 where
  pub body : SessionCreateRequest
  pub agent : body.agent_id ≡ id
  pub scopes : body.requested_scopes ≡ args.requested_scopes
  pub environment :
      get "environment" (pop "signature" body.runtime_attestation) ≡ str args.environment
  pub user : body.acting_user_id ≡ args.acting_user_id
  pub answer : AgentSession × String
  pub served : World
  pub opened :
      IsOpened settings env prims jwt body
        (record w { db = w.durable; draws = w.draws + 1 + 1 })
        answer
        served
  pub response : r ≡ session_response answer
  pub committed : v.durable ≡ served.db

module _ (settings : Settings) (env : Environment) (prims : Primitives) (jwt : Jwt)
    (machine : Machine) where
  -- The request as the API reads it.
  abbrev sent : SessionArguments → ℕ → String → String → String → SessionCreateRequest
  sent args id issued_at nonce hex = record {
    agent_id = id;
    acting_user_id = args.acting_user_id;
    delegation_grant_id = none;
    requested_scopes = args.requested_scopes;
    requested_ttl_seconds = pos 900;
    model_id = args.model_id;
    prompt_version = args.prompt_version;
    runtime_attestation =
        (session_post args (attestation_claims args issued_at nonce) hex).runtime_attestation;
  }

  -- The client's create_session returns, and the API has opened the session that it asked for, in the
  -- committed tables, if the client has a private key whose public half is the key of the agent, the
  -- agent and its blueprint are active, no claim is overridden, the agent's id is its UUID's text and
  -- is read back as that UUID, a date as the client writes it is read back, at most 300 seconds pass
  -- between the client's clock and the API's, the nonce is not empty and new to the verifier and to
  -- the stored attestations, the drawn UUIDs are new, and the signing key of the tokens loads.
  pub create_session-IsServed :
      (client : AgentIdentityClient) (args : SessionArguments) (w : World) (id : ℕ) (who : Opener)
      (private_key jwt_key : String)
      → client.private_key ≡ some private_key
      → args.attestation_overrides ≡ []
      → args.agent_id ≡ env.uuid_str id
      → env.parse_uuid args.agent_id ≡ some id
      → IsOpener id (record w { db = w.durable; draws = w.draws + 1 + 1 }) who
      → IsKeyPair prims private_key who.public_key
      → HasIsoFormat prims machine
      → distance (env.time (w.draws + 1 + 1)) (env.time w.draws) ≤ max_clock_skew_seconds * 1000000
      → let nonce = env.uuid_str (env.uuid (w.draws + 1)) in
        (nonce == "") ≡ false
        → seen (of_str nonce) w.nonces ≡ false
        → any (λ q. q.nonce == nonce) w.durable.attestations ≡ false
        → HasFreshIds env (record w { db = w.durable; draws = w.draws + 1 + 1 })
        → ((key message : String) → fits 4096 (prims.sign_hex key message) ≡ true)
        → fits 64 args.environment && fits 128 nonce ≡ true
        → session_fits args.acting_user_id args.model_id args.prompt_version args.requested_scopes
          ≡ true
        → load_private_key jwt settings ≡ ok jwt_key
        → IsSigningKey jwt jwt_key settings.jwt_algorithm
        → (r : SessionResponse) × (v : World) × (create_session settings env prims jwt machine
              client args w
            ≡ (ok r, v))
          × IsServed settings env prims jwt args id w r v
  unfolding create_session post_session call with_db read_post session_post
  create_session-IsServed client args w id who private_key jwt_key holds plain named parses op pair
        iso close given unseen unstored fresh hex_fits texts_fit fit loads signs =
      let issued_at = machine.isoformat (env.time w.draws) in
      let nonce = env.uuid_str (env.uuid (w.draws + 1)) in
      let start = record w { db = w.durable; draws = w.draws + 1 + 1 } in
      let claims = attestation_claims args issued_at nonce in
      let (hex, signing, verifying) =
        verify-sign_attestation prims (env.time start.draws) claims private_key who.public_key
          (env.uuid_str id) w.nonces (of_str nonce) pair
          (claims-IsTimely prims machine args (env.time w.draws) _ nonce plain iso close)
          (claims-IsFreshNonce prims machine args issued_at nonce w.nonces plain given unseen)
          (claims-IsComplete prims machine args issued_at nonce _ plain named) in
      let body = sent args id issued_at nonce hex in
      let (unsigned, signature) = popped prims machine args issued_at nonce hex plain in
      let (n, accepts) =
        (verify-verified_iff prims (env.time start.draws) claims (str hex) who.public_key
            (env.uuid_str id) w.nonces).0
          (ap (λ p. p.0) verifying) in
      let (a, row, same_nonce, widths) =
        row_written prims machine args (env.uuid (start.draws + 1 + 1)) body nonce hex
          (env.time w.draws) (env.time (start.draws + 1)) plain iso in
      let (answer, served, returned, opened) =
        create_session-completes settings env prims jwt body start who n a jwt_key refl op
          (rw (unsigned, signature) accepts) (rw (unsigned, signature) row)
          (widths (
            texts_hold args nonce hex (signed_fits prims claims private_key hex signing hex_fits)
              texts_fit fit))
          fit (rw same_nonce unstored) (λ j none_named. absurd (cc none_named)) fresh loads signs in
      (
        session_response answer,
        record served { durable = served.db },
        rw (holds, signing, parses, returned) refl,
        record {
          body = body;
          agent = refl;
          scopes = refl;
          environment = rw unsigned (claimed_environment prims machine args issued_at nonce plain);
          user = refl;
          answer = answer;
          served = served;
          opened = opened;
          response = refl;
          committed = refl;
        },
      )
