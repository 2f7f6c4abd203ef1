-- ===== src/Identity/Sessions/Guarantee.antt =====
-- What a client of POST /v1/sessions can count on, when it answers and when it fails.
use agent_identity_lab.Prelude.{
  ℕ, ◌+◌, String, false, ◌≡◌, refl, sym, subst, Option, none, some, [], ◌∷◌, ◌++◌, nat_str, arith,
  ap, ◌∙◌, ◌+s◌, pop, not, ◌&&◌,
}
use mathlib.Core.Option.{some-injective}
use agent_identity_lab.Prelude.Int.{ℤ, pos, leb_ℤ, ◌≤ℤ◌}
use agent_identity_lab.Json.{Json, Dict}
use agent_identity_lab.Common.{Settings}
use agent_identity_lab.Exec.{session_error, Exec, Result, ok, err, ◌>>=◌}
use agent_identity_lab.Exec.Ensures.{Ensures, Ensures-bind, Ensures-raise_if}
use agent_identity_lab.Models.{AgentSession, RuntimeAttestation}
use agent_identity_lab.Attestation.{Primitives, Nonce}
use agent_identity_lab.Attestation.Accepted.{IsAccepted}
use agent_identity_lab.Tokens.{Jwt, issue_session_token}
use agent_identity_lab.Database.{World, Db, Environment, find_attestation, find_session}
use agent_identity_lab.Identity.Sessions.{
  SessionCreateRequest, Opener, opener, check_delegation, attest, open_session,
  service_create_session,
}
use agent_identity_lab.Identity.Sessions.Api.{session_handler, signature_of, create_session}
use agent_identity_lab.Identity.Sessions.Recorded.{IsRecorded, attestation_row-IsRecorded}
use agent_identity_lab.Identity.Sessions.Opened.{
  IsOpener, opener-IsOpener, IsDelegated, check_delegation-IsDelegated, IsAttested,
  attest-IsAttested,
}
use agent_identity_lab.Identity.Sessions.Issued.{
  HasTerms, IsIssued, open_session-IsIssued, session_row-HasTerms, session_row-attestation,
}

module _ (settings : Settings) (env : Environment) (prims : Primitives) (jwt : Jwt) where
  -- What an answered POST /v1/sessions, on the tables of `w`, has checked and done.
  pub record IsOpened (body : SessionCreateRequest) (w : World) (answer : AgentSession × String)
      (v : World) : Type 0 where
    pub who : Opener
    pub opener : IsOpener body.agent_id w who
    pub nonce : Nonce
    pub accepts :
        IsAccepted prims
          (env.time w.draws)
          (pop "signature" body.runtime_attestation)
          (signature_of body.runtime_attestation)
          who.public_key
          (env.uuid_str body.agent_id)
          w.nonces
          nonce
    pub delegated :
        (id : ℕ)
        → body.delegation_grant_id ≡ some id
        → IsDelegated body.agent_id id (env.time (w.draws + 1 + 1 + 1)) w
    pub terms : HasTerms settings body who.blueprint answer.0
    pub token :
        (t : ℕ) × (issue_session_token jwt settings env.uuid_str t answer.0
            (who.blueprint.slug +s ":v" +s nat_str who.blueprint.version)
          ≡ ok answer.1)
    pub attestation : RuntimeAttestation
    pub recorded :
        IsRecorded prims body
          (pop "signature" body.runtime_attestation)
          (signature_of body.runtime_attestation)
          (env.time (w.draws + 1))
          attestation
    pub attested : answer.0.runtime_attestation_id ≡ attestation.id
    pub new_attestation : find_attestation attestation.id w.db ≡ none
    pub new_session : find_session answer.0.id w.db ≡ none
    pub stored : v.db ≡ record w.db {
      attestations = w.db.attestations ++ attestation ∷ [];
      sessions = w.db.sessions ++ answer.0 ∷ [];
    }
    pub remembered : v.nonces ≡ nonce ∷ w.nonces

  -- What the test of a named delegation has seen; it changes nothing but the clock.
  abbrev Delegated : Option ℕ → ℕ → World → World → Type 0
  Delegated grant agent_id w v =
      ((id : ℕ) → grant ≡ some id → IsDelegated agent_id id (env.time w.draws) w)
      × (v.db ≡ w.db)
      × (v.nonces ≡ w.nonces)

  check_delegation-Delegated :
      (grant : Option ℕ) (agent_id : ℕ) (w : World)
      → Ensures (check_delegation env grant agent_id w) (λ _ v. Delegated grant agent_id w v)
  unfolding check_delegation
  check_delegation-Delegated none agent_id w r e = (λ j same. absurd (cc same), refl, refl)
  check_delegation-Delegated (some id) agent_id w r e =
      let (d, after) = check_delegation-IsDelegated env id agent_id w r e in
      (
        λ j same.
            subst (λ k. IsDelegated agent_id k (env.time w.draws) w) (some-injective id j same) d,
        ap (λ v. v.db) after,
        ap (λ v. v.nonces) after,
      )

  IsDelegated-before :
      (body : SessionCreateRequest) (claims : Dict) (signature : Json) (who : Opener) (w u : World)
      (a : RuntimeAttestation) (id : ℕ)
      → IsAttested settings env prims jwt body claims signature who w a u
      → IsDelegated body.agent_id id (env.time u.draws) u
      → IsDelegated body.agent_id id (env.time (w.draws + 1 + 1 + 1)) w
  IsDelegated-before body claims signature who w u a id attested d =
      let e = subst (λ x. IsDelegated body.agent_id id (env.time x.draws) x) attested.after d in
      record {
        grant = e.grant;
        found = e.found;
        standing = e.standing;
        unexpired = e.unexpired;
        matching = e.matching;
      }

  opened :
      (body : SessionCreateRequest) (who : Opener) (a : RuntimeAttestation) (w u x : World)
      → body.requested_ttl_seconds ≤ℤ pos 1800
      → IsOpener body.agent_id w who
      → IsAttested settings env prims jwt body
          (pop "signature" body.runtime_attestation)
          (signature_of body.runtime_attestation)
          who
          w
          a
          u
      → Delegated body.delegation_grant_id body.agent_id u x
      → (answer : AgentSession × String) (v : World)
      → IsIssued settings env prims jwt body who.blueprint a x answer v
      → IsOpened body w answer v
  opened body who a w u x short op attested (grants, same_db, same_nonces) answer v issued =
      record {
        who = who;
        opener = op;
        nonce = attested.nonce;
        accepts = attested.accepts;
        delegated = λ id named. IsDelegated-before body _ _ who w u a id attested (grants id named);
        terms =
            subst (HasTerms settings body who.blueprint) (sym issued.row)
              (session_row-HasTerms settings env prims jwt _ _ _ body who.blueprint a short);
        token = (_, issued.token);
        attestation = a;
        recorded = attestation_row-IsRecorded prims _ body _ _ _ a attested.row;
        attested =
            ap (λ s. s.runtime_attestation_id) issued.row
            ∙ session_row-attestation settings env prims jwt _ _ _ body who.blueprint a;
        new_attestation = attested.new_id;
        new_session =
            subst (λ d. find_session answer.0.id d ≡ none) (same_db ∙ ap (λ y. y.db) attested.after)
              issued.new_id;
        stored =
            ap (λ y. y.db) issued.after
            ∙ ap {A = Db} (λ d. record d { sessions = d.sessions ++ answer.0 ∷ [] })
                (same_db ∙ ap (λ y. y.db) attested.after);
        remembered =
            ap (λ y. y.nonces) issued.after ∙ (same_nonces ∙ ap (λ y. y.nonces) attested.after);
      }

  service_create_session-IsOpened :
      (body : SessionCreateRequest) (w : World)
      → body.requested_ttl_seconds ≤ℤ pos 1800
      → Ensures
          (service_create_session settings env prims jwt body
            (pop "signature" body.runtime_attestation)
            (signature_of body.runtime_attestation)
            w)
          (IsOpened body w)
  unfolding service_create_session
  service_create_session-IsOpened body w short =
      Ensures-bind (λ who v. IsOpener body.agent_id w who × (v ≡ w)) (IsOpened body w)
        (opener body.agent_id) _ w (opener-IsOpener body.agent_id w)
        λ who (op, same).
          subst (λ v. Ensures (from_opener who v) (IsOpened body w)) (sym same)
            (Ensures-bind (IsAttested settings env prims jwt body claims signature who w)
              (IsOpened body w) (attest settings env prims jwt body claims signature who) _ w
              (attest-IsAttested settings env prims jwt body claims signature who w)
              λ a attested.
                Ensures-bind
                  (λ _ x. Delegated body.delegation_grant_id body.agent_id (attested_in who) x)
                  (IsOpened body w) (check_delegation env body.delegation_grant_id body.agent_id) _
                  (attested_in who)
                  (check_delegation-Delegated body.delegation_grant_id body.agent_id
                    (attested_in who))
                  λ _ grants answer e.
                    opened body who a w (attested_in who) _ short op attested grants answer _ (
                      open_session-IsIssued settings env prims jwt body who.blueprint a _ answer e))
    where
      claims : Dict
      claims = pop "signature" body.runtime_attestation

      signature : Json
      signature = signature_of body.runtime_attestation

      attested_in : Opener → World
      attested_in who = (attest settings env prims jwt body claims signature who w).1

      from_opener : Opener → Exec World (AgentSession × String)
      from_opener who = attest settings env prims jwt body claims signature who >>= λ a.
          check_delegation env body.delegation_grant_id body.agent_id >>= λ _.
          open_session settings env prims jwt body who.blueprint a

  answered : {A : Type 0} (r : Result A) (a : A) → session_handler r ≡ ok a → r ≡ ok a
  answered (ok b) a h = h
  answered (err (session_error m)) a h = absurd (cc h)
  answered (err e) a h = absurd (cc h)

  within : (a : ℤ) → not (leb_ℤ (pos 1) a && leb_ℤ a (pos 1800)) ≡ false → a ≤ℤ pos 1800
  within a h = ground (arith, h)

  -- A POST /v1/sessions that returns a session and its token has found the agent active with a
  -- key, its blueprint active, the attestation signed with that key, timely, fresh and complete,
  -- and a delegation, if one is named, there, standing, unexpired and for this agent; the session
  -- has the agent, the user, the delegation, the model and the scopes of the request and lasts no
  -- longer than half an hour, the request, the settings and the blueprint say; the token is the one
  -- issued for it; the session and a row that records the verified claims column by column are
  -- added to the tables under ids that were not in use, nothing else in them changes, and the
  -- nonce is remembered.
  pub create_session-IsOpened :
      (body : SessionCreateRequest) (w v : World) (answer : AgentSession × String)
      → create_session settings env prims jwt body w ≡ (ok answer, v)
      → IsOpened body w answer v
  unfolding create_session
  create_session-IsOpened body w v answer h = subst (IsOpened body w answer) (ap (λ p. p.1) h) (
      Ensures-raise_if (IsOpened body w) _ _ _ w
        (λ ttl again e.
          service_create_session-IsOpened body w (within _ ttl) again (answered _ again e))
        answer (ap (λ p. p.0) h))
