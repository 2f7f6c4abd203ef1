-- ===== src/Database/Evolution.antt =====
-- How the tables may change: rows are never removed, their identifying columns never change,
-- an agent's status moves along the life cycle, a revocation stays; the constraints stay as well.
use agent_identity_lab.Prelude.{is_some, false, ℕ, ◌≤◌, ◌≡◌, refl, Option, none, some, arith, ◌∙◌}
use agent_identity_lab.Models.{AgentBlueprint, AgentIdentity, DelegationGrant, AgentSession}
use agent_identity_lab.Models.Table.{or_else}
use agent_identity_lab.Database.Registry.{
  Leads, here, Leads-trans, Steps, still, Steps-trans, statuses,
}
use agent_identity_lab.Database.Integrity.{HasIntegrity}
use agent_identity_lab.Database.{Db, find_agent, find_session, find_delegation, find_blueprint}

-- A time that is set stays as it is.
abbrev pub StaysSet : Option ℕ → Option ℕ → Type 0
StaysSet none o = Unit
StaysSet (some t) o = o ≡ some t

pub StaysSet-refl : (o : Option ℕ) → StaysSet o o
StaysSet-refl none = tt
StaysSet-refl (some t) = refl

StaysSet-trans : (a b c : Option ℕ) → StaysSet a b → StaysSet b c → StaysSet a c
StaysSet-trans none b c h k = tt
StaysSet-trans (some t) (some u) c h k = k ∙ h
StaysSet-trans (some t) none c h k = absurd (ground arith)

-- A time that was not set may be set.
pub set_once : (o : Option ℕ) (t : Option ℕ) → is_some o ≡ false → StaysSet o t
set_once none t h = tt
set_once (some u) t h = absurd (cc)

pub record AgentKept (a b : AgentIdentity) : Type 0 where
  pub status : Leads a.status b.status
  pub uri : b.principal_uri ≡ a.principal_uri
  pub blueprint : b.blueprint_id ≡ a.blueprint_id
  pub owner : b.owner_id ≡ a.owner_id

pub record SessionKept (a b : AgentSession) : Type 0 where
  pub agent : b.agent_id ≡ a.agent_id
  pub grant : b.delegation_grant_id ≡ a.delegation_grant_id
  pub scopes : b.effective_scopes ≡ a.effective_scopes
  pub attestation : b.runtime_attestation_id ≡ a.runtime_attestation_id
  pub expires : b.expires_at ≡ a.expires_at
  pub revoked : StaysSet a.revoked_at b.revoked_at

pub record GrantKept (a b : DelegationGrant) : Type 0 where
  pub user : b.user_id ≡ a.user_id
  pub agent : b.agent_id ≡ a.agent_id
  pub scopes : b.scopes ≡ a.scopes
  pub expires : b.expires_at ≡ a.expires_at
  pub revoked : StaysSet a.revoked_at b.revoked_at

pub record BlueprintKept (a b : AgentBlueprint) : Type 0 where
  pub slug : b.slug ≡ a.slug
  pub version : a.version ≤ b.version

-- A row that is there stays, and is kept.
abbrev pub Kept : {R : Type 0} → (R → R → Type 0) → Option R → Option R → Type 0
Kept K none o = Unit
Kept K (some a) none = ⊥
Kept K (some a) (some b) = K a b

module _ {R : Type 0} (K : R → R → Type 0) where
  pub Kept-refl : ((a : R) → K a a) → (o : Option R) → Kept K o o
  Kept-refl r none = tt
  Kept-refl r (some a) = r a

  pub Kept-trans :
      ((a b c : R) → K a b → K b c → K a c)
      → (o p q : Option R) → Kept K o p
      → Kept K p q
      → Kept K o q
  Kept-trans t none p q h k = tt
  Kept-trans t (some a) none q h k = absurd h
  Kept-trans t (some a) (some b) none h k = absurd k
  Kept-trans t (some a) (some b) (some c) h k = t a b c h k

  pub Kept-or_else : ((a : R) → K a a) → (o p : Option R) → Kept K o (or_else o p)
  Kept-or_else r none p = tt
  Kept-or_else r (some a) p = r a

pub AgentKept-refl : (a : AgentIdentity) → AgentKept a a
AgentKept-refl a = record { status = here; uri = refl; blueprint = refl; owner = refl }

AgentKept-trans : (a b c : AgentIdentity) → AgentKept a b → AgentKept b c → AgentKept a c
AgentKept-trans a b c h k = record {
  status = Leads-trans h.status k.status;
  uri = k.uri ∙ h.uri;
  blueprint = k.blueprint ∙ h.blueprint;
  owner = k.owner ∙ h.owner;
}

pub SessionKept-refl : (a : AgentSession) → SessionKept a a
SessionKept-refl a = record {
  agent = refl;
  grant = refl;
  scopes = refl;
  attestation = refl;
  expires = refl;
  revoked = StaysSet-refl a.revoked_at;
}

SessionKept-trans : (a b c : AgentSession) → SessionKept a b → SessionKept b c → SessionKept a c
SessionKept-trans a b c h k = record {
  agent = k.agent ∙ h.agent;
  grant = k.grant ∙ h.grant;
  scopes = k.scopes ∙ h.scopes;
  attestation = k.attestation ∙ h.attestation;
  expires = k.expires ∙ h.expires;
  revoked = StaysSet-trans a.revoked_at b.revoked_at c.revoked_at h.revoked k.revoked;
}

pub GrantKept-refl : (a : DelegationGrant) → GrantKept a a
GrantKept-refl a = record {
  user = refl;
  agent = refl;
  scopes = refl;
  expires = refl;
  revoked = StaysSet-refl a.revoked_at;
}

GrantKept-trans : (a b c : DelegationGrant) → GrantKept a b → GrantKept b c → GrantKept a c
GrantKept-trans a b c h k = record {
  user = k.user ∙ h.user;
  agent = k.agent ∙ h.agent;
  scopes = k.scopes ∙ h.scopes;
  expires = k.expires ∙ h.expires;
  revoked = StaysSet-trans a.revoked_at b.revoked_at c.revoked_at h.revoked k.revoked;
}

pub BlueprintKept-refl : (a : AgentBlueprint) → BlueprintKept a a
BlueprintKept-refl a = record { slug = refl; version = omega arith }

BlueprintKept-trans :
    (a b c : AgentBlueprint) → BlueprintKept a b → BlueprintKept b c → BlueprintKept a c
BlueprintKept-trans a b c h k = record { slug = k.slug ∙ h.slug; version = omega arith }

pub record Evolves (d e : Db) : Type 0 where
  pub agents : (id : ℕ) → Kept AgentKept (find_agent id d) (find_agent id e)
  pub sessions : (id : ℕ) → Kept SessionKept (find_session id d) (find_session id e)
  pub delegations : (id : ℕ) → Kept GrantKept (find_delegation id d) (find_delegation id e)
  pub blueprints : (id : ℕ) → Kept BlueprintKept (find_blueprint id d) (find_blueprint id e)
  pub integrity : HasIntegrity d → HasIntegrity e
  pub registry : Steps (statuses d) (statuses e)

pub Evolves-refl : (d : Db) → Evolves d d
Evolves-refl d = record {
  agents = λ id. Kept-refl AgentKept AgentKept-refl (find_agent id d);
  sessions = λ id. Kept-refl SessionKept SessionKept-refl (find_session id d);
  delegations = λ id. Kept-refl GrantKept GrantKept-refl (find_delegation id d);
  blueprints = λ id. Kept-refl BlueprintKept BlueprintKept-refl (find_blueprint id d);
  integrity = λ i. i;
  registry = still;
}

pub Evolves-trans : (d e f : Db) → Evolves d e → Evolves e f → Evolves d f
Evolves-trans d e f h k = record {
  agents = λ id. Kept-trans AgentKept AgentKept-trans _ _ _ (h.agents id) (k.agents id);
  sessions = λ id. Kept-trans SessionKept SessionKept-trans _ _ _ (h.sessions id) (k.sessions id);
  delegations =
      λ id. Kept-trans GrantKept GrantKept-trans _ _ _ (h.delegations id) (k.delegations id);
  blueprints =
      λ id. Kept-trans BlueprintKept BlueprintKept-trans _ _ _ (h.blueprints id) (k.blueprints id);
  integrity = λ i. k.integrity (h.integrity i);
  registry = Steps-trans h.registry k.registry;
}
