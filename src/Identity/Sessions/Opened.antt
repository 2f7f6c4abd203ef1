-- ===== src/Identity/Sessions/Opened.antt =====
-- What holds when a session was opened.
use agent_identity_lab.Prelude.{
  ℕ, ◌≤◌, ◌+◌, String, ◌≡◌, refl, sym, subst, ap, true, false, not, none, some, [], ◌∷◌, ◌++◌,
  arith, is_some, get_or, ◌==◌, nat_eq, nat_eq_iff, ltb,
}
use agent_identity_lab.Json.{Json, Dict}
use agent_identity_lab.Common.{Settings, verified, rejected, pending}
use agent_identity_lab.Exec.{database_error}
use agent_identity_lab.Exec.Ensures.{
  Ensures, Ensures-ok, Ensures-bind, Ensures-or_raise, Ensures-raise_if, Ensures-last_raise_if,
  Ensures-refused_if, of_not,
}
use agent_identity_lab.Models.{AgentSession, RuntimeAttestation, DelegationGrant}
use agent_identity_lab.Attestation.{Primitives, Nonce, Verdict}
use agent_identity_lab.Attestation.Accepted.{IsAccepted, verify-verified_iff, verify-verified_state}
use agent_identity_lab.Attestation.Reason.{verify-accepted}
use agent_identity_lab.Tokens.{Jwt}
use agent_identity_lab.Database.{
  World, Environment, find_agent, find_blueprint, find_delegation, find_attestation, find_session,
  add_attestation, add_session,
}
use agent_identity_lab.Identity.Agents.{is_agent_active, is_blueprint_active}
use agent_identity_lab.Identity.Sessions.{
  SessionCreateRequest, Opener, opener, check_delegation, check_grant, verify_now,
  store_attestation, attest, is_verified, attestation_row,
}

-- The agent is there and active, with a key, and its blueprint is there and active.
pub record IsOpener (id : ℕ) (w : World) (who : Opener) : Type 0 where
  pub agent_found : find_agent id w.db ≡ some who.agent
  pub agent_active : is_agent_active who.agent.status ≡ true
  pub key : get_or who.agent.public_key "" ≡ who.public_key
  pub has_key : (who.public_key == "") ≡ false
  pub blueprint_found : find_blueprint who.agent.blueprint_id w.db ≡ some who.blueprint
  pub blueprint_active : is_blueprint_active who.blueprint.status ≡ true

pub opener-IsOpener :
    (id : ℕ) (w : World) → Ensures (opener id w) (λ who v. IsOpener id w who × (v ≡ w))
unfolding opener
opener-IsOpener id w = Ensures-or_raise R (find_agent id w.db) _ _ w λ agent found.
    Ensures-raise_if R (not (is_agent_active agent.status)) _ _ w λ active.
      Ensures-raise_if R (get_or agent.public_key "" == "") _ _ w λ key.
        Ensures-or_raise R (find_blueprint agent.blueprint_id w.db) _ _ w λ blueprint owned.
          Ensures-raise_if R (not (is_blueprint_active blueprint.status)) _ _ w λ working.
            Ensures-ok R _ w (
              record {
                agent_found = found;
                agent_active = of_not _ active;
                key = refl;
                has_key = key;
                blueprint_found = owned;
                blueprint_active = of_not _ working;
              },
              refl,
            )
  where
    R : Opener → World → Type 0
    R who v = IsOpener id w who × (v ≡ w)

-- The delegation `id` is there, not revoked, not expired at `t`, and for this agent.
pub record IsDelegated (agent_id grant_id t : ℕ) (w : World) : Type 0 where
  pub grant : DelegationGrant
  pub found : find_delegation grant_id w.db ≡ some grant
  pub standing : is_some grant.revoked_at ≡ false
  pub unexpired : t ≤ grant.expires_at
  pub matching : grant.agent_id ≡ agent_id

pub check_delegation-IsDelegated :
    (env : Environment) (grant_id agent_id : ℕ) (w : World)
    → Ensures (check_delegation env (some grant_id) agent_id w) (λ _ v.
      IsDelegated agent_id grant_id (env.time w.draws) w × (v ≡ record w { draws = w.draws + 1 }))
unfolding check_delegation check_grant
check_delegation-IsDelegated env grant_id agent_id w =
    Ensures-or_raise R (find_delegation grant_id w.db) _ _ w λ grant found.
      Ensures-raise_if R (is_some grant.revoked_at) _ _ w λ standing.
        Ensures-raise_if R (ltb grant.expires_at (env.time w.draws)) _ _ _ λ unexpired.
          Ensures-last_raise_if R (not (nat_eq grant.agent_id agent_id)) _ _ λ matching. (
            record {
              grant = grant;
              found = found;
              standing = standing;
              unexpired = ground (arith, unexpired);
              matching = (nat_eq_iff grant.agent_id agent_id).0 (of_not _ matching);
            },
            refl,
          )
  where
    R : Unit {0} → World → Type 0
    R _ v =
        IsDelegated agent_id grant_id (env.time w.draws) w × (v ≡ record w { draws = w.draws + 1 })

module _ (settings : Settings) (env : Environment) (prims : Primitives) (jwt : Jwt) where
  -- The attestation of a session: verified by the clock of the next draw, and stored.
  pub record IsAttested (body : SessionCreateRequest) (claims : Dict) (signature : Json)
      (who : Opener) (w : World) (a : RuntimeAttestation) (v : World) : Type 0 where
    pub nonce : Nonce
    pub accepts :
        IsAccepted prims
          (env.time w.draws)
          claims
          signature
          who.public_key
          (env.uuid_str body.agent_id)
          w.nonces
          nonce
    pub after : v ≡ record w {
      db = record w.db { attestations = w.db.attestations ++ a ∷ [] };
      nonces = nonce ∷ w.nonces;
      draws = w.draws + 1 + 1 + 1;
    }
    pub row :
        attestation_row prims
          (env.uuid (w.draws + 1 + 1))
          body
          claims
          signature
          (env.time (w.draws + 1))
        ≡ some a
    pub new_id : find_attestation a.id w.db ≡ none

  add_attestation-after :
      (a : RuntimeAttestation) (w : World)
      → Ensures (add_attestation a w) (λ _ v.
        (v ≡ record w { db = record w.db { attestations = w.db.attestations ++ a ∷ [] } })
        × (find_attestation a.id w.db ≡ none))
  unfolding add_attestation
  add_attestation-after a w =
      Ensures-refused_if Q _ database_error w _
        λ free. Ensures-ok Q tt _ (refl, ground (arith, free))
    where
      Q : Unit {0} → World → Type 0
      Q _ v =
          (v ≡ record w { db = record w.db { attestations = w.db.attestations ++ a ∷ [] } })
          × (find_attestation a.id w.db ≡ none)

  pub add_session-after :
      (s : AgentSession) (w : World)
      → Ensures (add_session s w) (λ _ v.
        (v ≡ record w { db = record w.db { sessions = w.db.sessions ++ s ∷ [] } })
        × (find_session s.id w.db ≡ none))
  unfolding add_session
  add_session-after s w =
      Ensures-refused_if Q _ database_error w _
        λ free. Ensures-ok Q tt _ (refl, ground (arith, free))
    where
      Q : Unit {0} → World → Type 0
      Q _ v =
          (v ≡ record w { db = record w.db { sessions = w.db.sessions ++ s ∷ [] } })
          × (find_session s.id w.db ≡ none)

  verify_now-after :
      (claims : Dict) (signature : Json) (pem : String) (id : ℕ) (w : World)
      → Ensures (verify_now settings env prims jwt claims signature pem id w) (λ verdict v.
        (is_verified verdict.0 ≡ true)
        → (n : Nonce) × IsAccepted prims
            (env.time w.draws)
            claims
            signature
            pem
            (env.uuid_str id)
            w.nonces
            n
          × (v ≡ record w { nonces = n ∷ w.nonces; draws = w.draws + 1 }))
  unfolding verify_now
  verify_now-after claims signature pem id w (verified, reason) h passed =
      let accepting =
        verify-accepted claims (env.uuid_str id) (env.time w.draws) w.nonces prims signature pem
          reason h in
      let (n, accepts) =
        (verify-verified_iff prims (env.time w.draws) claims signature pem (env.uuid_str id)
            w.nonces).0
          accepting in
      (
        n,
        accepts,
        ap (λ ns. record w { nonces = ns; draws = w.draws + 1 })
            (verify-verified_state prims (env.time w.draws) claims signature pem (env.uuid_str id)
              w.nonces n accepts),
      )
  verify_now-after claims signature pem id w (rejected, reason) h passed = absurd (cc passed)
  verify_now-after claims signature pem id w (pending, reason) h passed = absurd (cc passed)

  store_attestation-IsAttested :
      (body : SessionCreateRequest) (claims : Dict) (signature : Json) (who : Opener) (w v : World)
      (n : Nonce)
      → IsAccepted prims
          (env.time w.draws)
          claims
          signature
          who.public_key
          (env.uuid_str body.agent_id)
          w.nonces
          n
      → v ≡ record w { nonces = n ∷ w.nonces; draws = w.draws + 1 }
      → Ensures
          (store_attestation settings env prims jwt body claims signature v)
          (IsAttested body claims signature who w)
  unfolding store_attestation
  store_attestation-IsAttested body claims signature who w v n accepts e =
      subst (λ x. Ensures (store_attestation settings env prims jwt body claims signature x) Q)
        (sym e)
        (Ensures-or_raise Q (attestation_row prims _ body claims signature _) _ _ _ λ row written.
          Ensures-bind (λ _ u. (u ≡ stored row) × (find_attestation row.id w.db ≡ none)) Q
            (add_attestation row) _ _ (add_attestation-after row _)
            λ _ (after, new_id). Ensures-ok Q row _ (record {
              nonce = n;
              accepts = accepts;
              after = after;
              row = written;
              new_id = new_id;
            }))
    where
      Q : RuntimeAttestation → World → Type 0
      Q = IsAttested body claims signature who w

      stored : RuntimeAttestation → World
      stored row = record w {
        db = record w.db { attestations = w.db.attestations ++ row ∷ [] };
        nonces = n ∷ w.nonces;
        draws = w.draws + 1 + 1 + 1;
      }

  pub attest-IsAttested :
      (body : SessionCreateRequest) (claims : Dict) (signature : Json) (who : Opener) (w : World)
      → Ensures
          (attest settings env prims jwt body claims signature who w)
          (IsAttested body claims signature who w)
  unfolding attest
  attest-IsAttested body claims signature who w =
      Ensures-bind V Q
        (verify_now settings env prims jwt claims signature who.public_key body.agent_id) _ w
        (verify_now-after claims signature who.public_key body.agent_id w)
        λ verdict verifies. Ensures-raise_if Q (not (is_verified verdict.0)) _ _ _ λ passed.
          let (n, accepts, after) = verifies (of_not _ passed) in
          store_attestation-IsAttested body claims signature who w _ n accepts after
    where
      V : Verdict → World → Type 0
      V verdict v =
          (is_verified verdict.0 ≡ true)
          → (n : Nonce) × IsAccepted prims (env.time w.draws) claims signature who.public_key
              (env.uuid_str body.agent_id) w.nonces n
            × (v ≡ record w { nonces = n ∷ w.nonces; draws = w.draws + 1 })

      Q : RuntimeAttestation → World → Type 0
      Q = IsAttested body claims signature who w
