-- ===== src/Database/Changes.antt =====
-- What a new row and a changed row do to the tables: they evolve, and keep their constraints.
use agent_identity_lab.Prelude.{
  ℕ, ◌≡◌, refl, subst, inl, inr, Option, none, some, List, [], ◌∷◌, ◌++◌, nat_eq, nat_eq_iff, sym,
  Bool-cases, false, any, is_some, ◌==◌,
}
use agent_identity_lab.Models.{
  AgentBlueprint, AgentIdentity, RuntimeAttestation, DelegationGrant, AgentSession,
}
use agent_identity_lab.Models.Table.{find, replace, find-append, find-replace, updated}
use mathlib.Core.Option.{some-injective}
use agent_identity_lab.Models.Table.Rows.{
  IsUnique, same_key, All-append, All-replace, IsUnique-append, IsUnique-replace, unused_key,
  find-All, kept-append, kept-replace,
}
use agent_identity_lab.Common.{draft}
use agent_identity_lab.Database.Registry.{still, enrolled, moved_along}
use agent_identity_lab.Database.Integrity.{
  AgentRefers, AttestationRefers, GrantRefers, SessionRefers, same_nonce, with_blueprints,
  with_agents, with_attestations, with_delegations, with_sessions,
}
use agent_identity_lab.Database.{
  find_attestation, Db, find_agent, find_session, find_delegation, find_blueprint,
}
use agent_identity_lab.Database.Evolution.{
  Kept, Kept-or_else, AgentKept, SessionKept, GrantKept, BlueprintKept, AgentKept-refl,
  SessionKept-refl, GrantKept-refl, BlueprintKept-refl, Evolves, Evolves-refl,
}

module _ {R : Type 0} (K : R → R → Type 0) (key : R → ℕ) (r : (a : R) → K a a) where
  Kept-append :
      (k : ℕ) (a : R) (rows : List R) → Kept K (find key k rows) (find key k (rows ++ a ∷ []))
  Kept-append k a rows = rw find-append (Kept-or_else K r (find key k rows) _)

  Kept-updated :
      (k : ℕ) (a q : R) (o : Option R)
      → (key a ≡ k → o ≡ some q)
      → K q a
      → Kept K o (updated key k a o)
  Kept-updated k a q none here h = tt
  Kept-updated k a q (some p) here h = elim (Bool-cases (nat_eq (key a) k)) [
    | inr other ↦ rw other (r p)
    | inl same ↦
        rw same
          (subst (λ x. K x a) (sym (some-injective p q (here ((nat_eq_iff (key a) k).0 same)))) h)
  ]

  Kept-replace :
      (k : ℕ) (a q : R) (rows : List R)
      → find key (key a) rows ≡ some q
      → K q a
      → Kept K (find key k rows) (find key k (replace key a rows))
  Kept-replace k a q rows here h =
      rw find-replace
        (Kept-updated k a q (find key k rows) (λ e. subst (λ j. find key j rows ≡ some q) e here) h)

IsUnique-append-find :
    {R : Type 0} (key : R → ℕ) (rows : List R) (r : R)
    → IsUnique (same_key key) rows
    → is_some (find key (key r) rows) ≡ false
    → IsUnique (same_key key) (rows ++ r ∷ [])
IsUnique-append-find key rows r ids free =
    IsUnique-append (same_key key) rows r ids (unused_key key rows r free)

-- Writing a changed row back, under the row that it was.
module _ (d : Db) where
  pub agent-Evolves :
      (a q : AgentIdentity)
      → find_agent a.id d ≡ some q
      → AgentKept q a
      → Evolves d (record d { agents = replace (λ r. r.id) a d.agents })
  agent-Evolves a q here kept = record {
    agents = λ id. Kept-replace AgentKept (λ r. r.id) AgentKept-refl id a q d.agents here kept;
    sessions = (Evolves-refl d).sessions;
    delegations = (Evolves-refl d).delegations;
    blueprints = (Evolves-refl d).blueprints;
    integrity = λ i.
        with_agents d i _ (IsUnique-replace (λ r. r.id) d.agents a i.agent_ids)
          (All-replace (λ r. r.id) (AgentRefers d) d.agents a i.agents
            (rw kept.blueprint
              (find-All (λ r. r.id) (AgentRefers d) d.agents a.id q i.agents here)))
          (λ k. kept-replace (λ r. r.id) k d.agents a);
    registry = moved_along d a q here kept.status;
  }

  pub session-Evolves :
      (a q : AgentSession)
      → find_session a.id d ≡ some q
      → SessionKept q a
      → Evolves d (record d { sessions = replace (λ r. r.id) a d.sessions })
  session-Evolves a q here kept = record {
    agents = (Evolves-refl d).agents;
    sessions =
        λ id. Kept-replace SessionKept (λ r. r.id) SessionKept-refl id a q d.sessions here kept;
    delegations = (Evolves-refl d).delegations;
    blueprints = (Evolves-refl d).blueprints;
    integrity = λ i. with_sessions d i _ (IsUnique-replace (λ r. r.id) d.sessions a i.session_ids) (
        All-replace (λ r. r.id) (SessionRefers d) d.sessions a i.sessions
          (rw (kept.agent, kept.grant, kept.attestation)
            (find-All (λ r. r.id) (SessionRefers d) d.sessions a.id q i.sessions here)));
    registry = still;
  }

  pub grant-Evolves :
      (a q : DelegationGrant)
      → find_delegation a.id d ≡ some q
      → GrantKept q a
      → Evolves d (record d { delegations = replace (λ r. r.id) a d.delegations })
  grant-Evolves a q here kept = record {
    agents = (Evolves-refl d).agents;
    sessions = (Evolves-refl d).sessions;
    delegations =
        λ id. Kept-replace GrantKept (λ r. r.id) GrantKept-refl id a q d.delegations here kept;
    blueprints = (Evolves-refl d).blueprints;
    integrity = λ i.
        with_delegations d i _ (IsUnique-replace (λ r. r.id) d.delegations a i.delegation_ids)
          (All-replace (λ r. r.id) (GrantRefers d) d.delegations a i.delegations
            (rw kept.agent
              (find-All (λ r. r.id) (GrantRefers d) d.delegations a.id q i.delegations here)))
          (λ k. kept-replace (λ r. r.id) k d.delegations a);
    registry = still;
  }

  pub blueprint-Evolves :
      (a q : AgentBlueprint)
      → find_blueprint a.id d ≡ some q
      → BlueprintKept q a
      → Evolves d (record d { blueprints = replace (λ r. r.id) a d.blueprints })
  blueprint-Evolves a q here kept = record {
    agents = (Evolves-refl d).agents;
    sessions = (Evolves-refl d).sessions;
    delegations = (Evolves-refl d).delegations;
    blueprints = λ id.
        Kept-replace BlueprintKept (λ r. r.id) BlueprintKept-refl id a q d.blueprints here kept;
    integrity = λ i.
        with_blueprints d i _ (IsUnique-replace (λ r. r.id) d.blueprints a i.blueprint_ids)
          (λ k. kept-replace (λ r. r.id) k d.blueprints a);
    registry = still;
  }

  pub added_agent :
      (a : AgentIdentity)
      → find_agent a.id d ≡ none
      → a.status ≡ draft
      → AgentRefers d a
      → Evolves d (record d { agents = d.agents ++ a ∷ [] })
  added_agent a free new refer = record {
    agents = λ id. Kept-append AgentKept (λ r. r.id) AgentKept-refl id a d.agents;
    sessions = (Evolves-refl d).sessions;
    delegations = (Evolves-refl d).delegations;
    blueprints = (Evolves-refl d).blueprints;
    integrity = λ i.
        with_agents d i _ (IsUnique-append-find (λ r. r.id) d.agents a i.agent_ids (rw free refl))
          (All-append (AgentRefers d) d.agents a i.agents refer)
          (λ k. kept-append (λ r. r.id) k d.agents a);
    registry = enrolled d a free new;
  }

  pub added_session :
      (a : AgentSession)
      → is_some (find_session a.id d) ≡ false
      → SessionRefers d a
      → Evolves d (record d { sessions = d.sessions ++ a ∷ [] })
  added_session a free refer = record {
    agents = (Evolves-refl d).agents;
    sessions = λ id. Kept-append SessionKept (λ r. r.id) SessionKept-refl id a d.sessions;
    delegations = (Evolves-refl d).delegations;
    blueprints = (Evolves-refl d).blueprints;
    integrity = λ i.
        with_sessions d i _ (IsUnique-append-find (λ r. r.id) d.sessions a i.session_ids free)
          (All-append (SessionRefers d) d.sessions a i.sessions refer);
    registry = still;
  }

  pub added_grant :
      (a : DelegationGrant)
      → is_some (find_delegation a.id d) ≡ false
      → GrantRefers d a
      → Evolves d (record d { delegations = d.delegations ++ a ∷ [] })
  added_grant a free refer = record {
    agents = (Evolves-refl d).agents;
    sessions = (Evolves-refl d).sessions;
    delegations = λ id. Kept-append GrantKept (λ r. r.id) GrantKept-refl id a d.delegations;
    blueprints = (Evolves-refl d).blueprints;
    integrity = λ i.
        with_delegations d i _
          (IsUnique-append-find (λ r. r.id) d.delegations a i.delegation_ids free)
          (All-append (GrantRefers d) d.delegations a i.delegations refer)
          (λ k. kept-append (λ r. r.id) k d.delegations a);
    registry = still;
  }

  pub added_blueprint :
      (a : AgentBlueprint)
      → is_some (find_blueprint a.id d) ≡ false
      → Evolves d (record d { blueprints = d.blueprints ++ a ∷ [] })
  added_blueprint a free = record {
    agents = (Evolves-refl d).agents;
    sessions = (Evolves-refl d).sessions;
    delegations = (Evolves-refl d).delegations;
    blueprints = λ id. Kept-append BlueprintKept (λ r. r.id) BlueprintKept-refl id a d.blueprints;
    integrity = λ i.
        with_blueprints d i _ (IsUnique-append-find (λ r. r.id) d.blueprints a i.blueprint_ids free)
          (λ k. kept-append (λ r. r.id) k d.blueprints a);
    registry = still;
  }

  pub added_attestation :
      (a : RuntimeAttestation)
      → is_some (find_attestation a.id d) ≡ false
      → any (λ q. q.nonce == a.nonce) d.attestations ≡ false
      → AttestationRefers d a
      → Evolves d (record d { attestations = d.attestations ++ a ∷ [] })
  added_attestation a free new_nonce refer = record {
    agents = (Evolves-refl d).agents;
    sessions = (Evolves-refl d).sessions;
    delegations = (Evolves-refl d).delegations;
    blueprints = (Evolves-refl d).blueprints;
    integrity = λ i.
        with_attestations d i _
          (IsUnique-append-find (λ r. r.id) d.attestations a i.attestation_ids free)
          (IsUnique-append same_nonce d.attestations a i.nonces new_nonce)
          (All-append (AttestationRefers d) d.attestations a i.attestations refer)
          (λ k. kept-append (λ r. r.id) k d.attestations a);
    registry = still;
  }
