-- ===== src/Database/Integrity.antt =====
-- The constraints that the tables declare, as an invariant of their rows: primary keys and nonces
-- are unique, and every foreign key names a row.
use agent_identity_lab.Prelude.{ℕ, ◌≡◌, Bool, true, ◌==◌, Option, none, some, List, All, is_some}
use agent_identity_lab.Models.{
  AgentBlueprint, AgentIdentity, RuntimeAttestation, DelegationGrant, AgentSession,
}
use agent_identity_lab.Models.Table.{find}
use agent_identity_lab.Models.Table.Rows.{IsUnique, same_key, All-map}
use agent_identity_lab.Database.{
  Db, find_blueprint, find_agent, find_attestation, find_delegation, refers,
}

abbrev pub AgentRefers : Db → AgentIdentity → Type 0
AgentRefers d a = is_some (find_blueprint a.blueprint_id d) ≡ true

abbrev pub AttestationRefers : Db → RuntimeAttestation → Type 0
AttestationRefers d a = is_some (find_agent a.agent_id d) ≡ true

abbrev pub GrantRefers : Db → DelegationGrant → Type 0
GrantRefers d g = is_some (find_agent g.agent_id d) ≡ true

abbrev pub SessionRefers : Db → AgentSession → Type 0
SessionRefers d s =
    (is_some (find_agent s.agent_id d) ≡ true)
    × (refers s.delegation_grant_id d ≡ true)
    × (is_some (find_attestation s.runtime_attestation_id d) ≡ true)

abbrev pub same_nonce : RuntimeAttestation → RuntimeAttestation → Bool
same_nonce q r = q.nonce == r.nonce

pub record HasIntegrity (d : Db) : Type 0 where
  pub blueprint_ids : IsUnique (same_key (λ (r : AgentBlueprint). r.id)) d.blueprints
  pub agent_ids : IsUnique (same_key (λ (r : AgentIdentity). r.id)) d.agents
  pub attestation_ids : IsUnique (same_key (λ (r : RuntimeAttestation). r.id)) d.attestations
  pub delegation_ids : IsUnique (same_key (λ (r : DelegationGrant). r.id)) d.delegations
  pub session_ids : IsUnique (same_key (λ (r : AgentSession). r.id)) d.sessions
  pub nonces : IsUnique same_nonce d.attestations
  pub agents : All (AgentRefers d) d.agents
  pub attestations : All (AttestationRefers d) d.attestations
  pub delegations : All (GrantRefers d) d.delegations
  pub sessions : All (SessionRefers d) d.sessions

refers_kept :
    (grant : Option ℕ) (d e : Db)
    → ((k : ℕ) → is_some (find_delegation k d) ≡ true → is_some (find_delegation k e) ≡ true)
    → refers grant d ≡ true
    → refers grant e ≡ true
refers_kept none d e kept g = g
refers_kept (some id) d e kept g = kept id g

-- One table with other rows, in which the ids of the old ones are still found.
module _ (d : Db) (h : HasIntegrity d) where
  pub with_blueprints :
      (rows : List AgentBlueprint)
      → IsUnique (same_key (λ r. r.id)) rows
      → ((k : ℕ) → is_some (find_blueprint k d) ≡ true → is_some (find (λ r. r.id) k rows) ≡ true)
      → HasIntegrity (record d { blueprints = rows })
  with_blueprints rows ids kept = record {
    blueprint_ids = ids;
    agent_ids = h.agent_ids;
    attestation_ids = h.attestation_ids;
    delegation_ids = h.delegation_ids;
    session_ids = h.session_ids;
    nonces = h.nonces;
    agents = All-map _ _ d.agents (λ a. kept a.blueprint_id) h.agents;
    attestations = h.attestations;
    delegations = h.delegations;
    sessions =
        All-map _ _ d.sessions
          (λ s (a, g, t). (a, refers_kept s.delegation_grant_id d _ (λ k x. x) g, t)) h.sessions;
  }

  pub with_agents :
      (rows : List AgentIdentity)
      → IsUnique (same_key (λ r. r.id)) rows
      → All (AgentRefers d) rows
      → ((k : ℕ) → is_some (find_agent k d) ≡ true → is_some (find (λ r. r.id) k rows) ≡ true)
      → HasIntegrity (record d { agents = rows })
  with_agents rows ids refer kept = record {
    blueprint_ids = h.blueprint_ids;
    agent_ids = ids;
    attestation_ids = h.attestation_ids;
    delegation_ids = h.delegation_ids;
    session_ids = h.session_ids;
    nonces = h.nonces;
    agents = refer;
    attestations = All-map _ _ d.attestations (λ a. kept a.agent_id) h.attestations;
    delegations = All-map _ _ d.delegations (λ g. kept g.agent_id) h.delegations;
    sessions =
        All-map _ _ d.sessions
          (λ s (a, g, t).
            (kept s.agent_id a, refers_kept s.delegation_grant_id d _ (λ k x. x) g, t))
          h.sessions;
  }

  pub with_attestations :
      (rows : List RuntimeAttestation)
      → IsUnique (same_key (λ r. r.id)) rows
      → IsUnique same_nonce rows
      → All (AttestationRefers d) rows
      → ((k : ℕ) → is_some (find_attestation k d) ≡ true → is_some (find (λ r. r.id) k rows) ≡ true)
      → HasIntegrity (record d { attestations = rows })
  with_attestations rows ids nonces refer kept = record {
    blueprint_ids = h.blueprint_ids;
    agent_ids = h.agent_ids;
    attestation_ids = ids;
    delegation_ids = h.delegation_ids;
    session_ids = h.session_ids;
    nonces = nonces;
    agents = h.agents;
    attestations = refer;
    delegations = h.delegations;
    sessions =
        All-map _ _ d.sessions
          (λ s (a, g, t). (
            a,
            refers_kept s.delegation_grant_id d _ (λ k x. x) g,
            kept s.runtime_attestation_id t,
          ))
          h.sessions;
  }

  pub with_delegations :
      (rows : List DelegationGrant)
      → IsUnique (same_key (λ r. r.id)) rows
      → All (GrantRefers d) rows
      → ((k : ℕ) → is_some (find_delegation k d) ≡ true → is_some (find (λ r. r.id) k rows) ≡ true)
      → HasIntegrity (record d { delegations = rows })
  with_delegations rows ids refer kept = record {
    blueprint_ids = h.blueprint_ids;
    agent_ids = h.agent_ids;
    attestation_ids = h.attestation_ids;
    delegation_ids = ids;
    session_ids = h.session_ids;
    nonces = h.nonces;
    agents = h.agents;
    attestations = h.attestations;
    delegations = refer;
    sessions =
        All-map _ _ d.sessions (λ s (a, g, t). (a, refers_kept s.delegation_grant_id d _ kept g, t))
          h.sessions;
  }

  pub with_sessions :
      (rows : List AgentSession)
      → IsUnique (same_key (λ r. r.id)) rows
      → All (SessionRefers d) rows
      → HasIntegrity (record d { sessions = rows })
  with_sessions rows ids refer = record {
    blueprint_ids = h.blueprint_ids;
    agent_ids = h.agent_ids;
    attestation_ids = h.attestation_ids;
    delegation_ids = h.delegation_ids;
    session_ids = ids;
    nonces = h.nonces;
    agents = h.agents;
    attestations = h.attestations;
    delegations = h.delegations;
    sessions =
        All-map _ _ rows (λ s (a, g, t). (a, refers_kept s.delegation_grant_id d _ (λ k x. x) g, t))
          refer;
  }
