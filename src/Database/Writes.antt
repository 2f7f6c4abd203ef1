-- ===== src/Database/Writes.antt =====
-- Every write of the ORM evolves the tables; commits and draws change no row.
use agent_identity_lab.Prelude.{
  ℕ, ◌≡◌, refl, ◌⊎◌, inl, inr, Option, [], ◌∷◌, ◌++◌, arith, ◌∙◌, Bool, true, false, if◌then◌else◌,
}
use agent_identity_lab.Models.{
  AgentBlueprint, AgentIdentity, RuntimeAttestation, DelegationGrant, AgentSession,
}
use agent_identity_lab.Exec.{err, database_error, Exec}
use agent_identity_lab.Exec.Keeps.{
  IsPreorder, Relates, Relates-bind, Relates-pure, Relates-raise, Relates-raise_if,
  Relates-or_raise, Relates-lift, Relates-gets,
}
use agent_identity_lab.Database.{
  write, Db, World, Environment, now, new_uuid, get, commit, add_blueprint, add_agent,
  add_attestation, add_delegation, add_session,
}
use agent_identity_lab.Database.Evolution.{Evolves, Evolves-refl, Evolves-trans}
use agent_identity_lab.Common.{draft}
use agent_identity_lab.Database.Changes.{
  added_agent, added_session, added_grant, added_blueprint, added_attestation,
}

-- From the world `w` to `v`: the tables that the transaction sees have evolved, and so have the
-- committed ones, if there was a commit in between.
abbrev pub WorldEvolves : World → World → Type 0
WorldEvolves w v = Evolves w.db v.db × ((v.durable ≡ w.durable) ⊎ Evolves w.db v.durable)

pub WorldEvolves-refl : (w : World) → WorldEvolves w w
WorldEvolves-refl w = (Evolves-refl w.db, inl refl)

WorldEvolves-trans : (s t u : World) → WorldEvolves s t → WorldEvolves t u → WorldEvolves s u
WorldEvolves-trans s t u (h, c) (k, inl same) = (
  Evolves-trans s.db t.db u.db h k,
  elim c [ inl same' ↦ inl (same ∙ same') | inr came ↦ inr (rw same came) ],
)
WorldEvolves-trans s t u (h, c) (k, inr came) =
    (Evolves-trans s.db t.db u.db h k, inr (Evolves-trans s.db t.db u.durable h came))

pub evolution : IsPreorder WorldEvolves
evolution = record { reflexive = WorldEvolves-refl; transitive = WorldEvolves-trans }

abbrev pub Writes : {A : Type 0} → Exec World A → Type 0
Writes m = Relates WorldEvolves m

pub now-Evolves : (env : Environment) → Writes (now env)
now-Evolves env = record { at = WorldEvolves-refl }

pub new_uuid-Evolves : (env : Environment) → Writes (new_uuid env)
new_uuid-Evolves env = record { at = WorldEvolves-refl }

pub get-Evolves : {R : Type 0} (look : ℕ → Db → Option R) (id : ℕ) → Writes (get look id)
get-Evolves look id = record { at = WorldEvolves-refl }

pub commit-Evolves : Writes commit
commit-Evolves = record { at = λ w. (Evolves-refl w.db, inr (Evolves-refl w.db)) }

-- A write that is refused on a test.
refused_or :
    (refused : Bool) (f : Db → Db) (w : World)
    → (refused ≡ false → Evolves w.db (f w.db))
    → WorldEvolves w (if refused then (err database_error, w) else write f w).1
refused_or true f w h = WorldEvolves-refl w
refused_or false f w h = (h refl, inl refl)

pub add_agent-Evolves : (a : AgentIdentity) → a.status ≡ draft → Writes (add_agent a)
unfolding add_agent
add_agent-Evolves a new = record {
  at = λ w.
      refused_or _ (λ db. record db { agents = db.agents ++ a ∷ [] }) w
        λ free. added_agent w.db a (ground (arith, free)) new (ground (arith, free));
}

pub add_session-Evolves : (a : AgentSession) → Writes (add_session a)
unfolding add_session
add_session-Evolves a = record {
  at = λ w.
      refused_or _ (λ db. record db { sessions = db.sessions ++ a ∷ [] }) w
        λ free.
          added_session w.db a (ground (arith, free))
            (ground (arith, free), ground (arith, free), ground (arith, free));
}

pub add_delegation-Evolves : (a : DelegationGrant) → Writes (add_delegation a)
unfolding add_delegation
add_delegation-Evolves a = record {
  at = λ w.
      refused_or _ (λ db. record db { delegations = db.delegations ++ a ∷ [] }) w
        λ free. added_grant w.db a (ground (arith, free)) (ground (arith, free));
}

pub add_blueprint-Evolves : (a : AgentBlueprint) → Writes (add_blueprint a)
unfolding add_blueprint
add_blueprint-Evolves a = record {
  at = λ w.
      refused_or _ (λ db. record db { blueprints = db.blueprints ++ a ∷ [] }) w
        λ free. added_blueprint w.db a (ground (arith, free));
}

pub add_attestation-Evolves : (a : RuntimeAttestation) → Writes (add_attestation a)
unfolding add_attestation
add_attestation-Evolves a = record {
  at = λ w.
      refused_or _ (λ db. record db { attestations = db.attestations ++ a ∷ [] }) w
        λ free.
          added_attestation w.db a (ground (arith, free)) (ground (arith, free))
            (ground (arith, free));
}

-- After the write and the commit.
pub saved : (d durable e : Db) → Evolves d e → Evolves d e × ((e ≡ durable) ⊎ Evolves d e)
saved d durable e h = (h, inr h)

-- The rules for what a request is built from.
pub ruleset writes_rules = (
  Relates-bind, Relates-pure, Relates-raise, Relates-raise_if, Relates-or_raise, Relates-lift,
  Relates-gets, evolution, now-Evolves, new_uuid-Evolves, get-Evolves, commit-Evolves,
  add_agent-Evolves, add_session-Evolves, add_delegation-Evolves, add_blueprint-Evolves,
  add_attestation-Evolves,
)
