-- ===== src/Identity/Agents/Lifecycle.antt =====
-- Every request on agents evolves the tables: a status moves along the life cycle only.
use agent_identity_lab.Prelude.{
  ℕ, String, ◌≡◌, refl, sym, subst, inl, inr, true, Option, some, Option-cases, Bool-cases,
}
use agent_identity_lab.Common.{Settings, AgentStatus, draft, pending_approval, active, suspended}
use agent_identity_lab.Exec.{Exec, ◌>>=◌}
use agent_identity_lab.Exec.Keeps.{Relates-bind}
use agent_identity_lab.Models.{AgentIdentity}
use agent_identity_lab.Models.Table.{find-key}
use agent_identity_lab.Database.{World, Environment, find_agent, save_agent}
use agent_identity_lab.Database.Evolution.{AgentKept}
use agent_identity_lab.Database.Registry.{
  Transition, activate_draft, activate_pending, activate_suspended, suspend, revoke, here, next,
}
use agent_identity_lab.Database.Writes.{
  WorldEvolves, WorldEvolves-refl, evolution, Writes, writes_rules, saved,
}
use agent_identity_lab.Database.Changes.{agent-Evolves}
use agent_identity_lab.Identity.Agents.{
  AgentCreate, can_activate, is_agent_active, create, update, existing_agent, admin, create_agent,
  activate_agent, suspend_agent, revoke_agent, rotate_key,
}

admin-Writes :
    (settings : Settings) (env : Environment) (key : Option String)
    → Writes (admin settings env key)
unfolding admin
admin-Writes settings env key = search writes_rules

create-Writes : (a : AgentIdentity) → a.status ≡ draft → Writes (create a)
unfolding create
create-Writes a new = search (writes_rules, new)

-- A row that was just read may be written back, if it is kept.
update-WorldEvolves :
    (a q : AgentIdentity) (w : World)
    → find_agent a.id w.db ≡ some q
    → AgentKept q a
    → WorldEvolves w (update a w).1
unfolding update save_agent
update-WorldEvolves a q w found kept =
    (agent-Evolves w.db a q found kept, inr (agent-Evolves w.db a q found kept))

existing-Writes :
    {B : Type 0} (id : ℕ) (f : AgentIdentity → Exec World B)
    → ((w : World) (a : AgentIdentity) → find_agent a.id w.db ≡ some a → WorldEvolves w (f a w).1)
    → Writes (existing_agent id >>= f)
unfolding existing_agent
existing-Writes id f h = record {
  at = λ w. elim (Option-cases (find_agent id w.db)) [
    | inl missing ↦ rw missing (WorldEvolves-refl w)
    | inr (a, e) ↦ rw e (
        h w a (
          subst (λ j. find_agent j w.db ≡ some a) (sym (find-key (λ r. r.id) id a w.db.agents e))
            e))
  ];
}

activation : (s : AgentStatus) → can_activate s ≡ true → Transition s active
activation draft h = activate_draft
activation pending_approval h = activate_pending
activation AgentStatus.suspended h = activate_suspended
activation _ h = absurd (cc)

suspension : (s : AgentStatus) → is_agent_active s ≡ true → Transition s suspended
suspension active h = suspend
suspension _ h = absurd (cc)

moved :
    (a : AgentIdentity) {s : AgentStatus}
    → Transition a.status s
    → (t₁ t₂ t₃ : Option ℕ)
    → AgentKept a (record a { status = s; activated_at = t₁; suspended_at = t₂; revoked_at = t₃ })
moved a step t₁ t₂ t₃ = record {
  status = next here step;
  uri = refl;
  blueprint = refl;
  owner = refl;
}

rotated : (a : AgentIdentity) (pem : String) → AgentKept a (record a { public_key = some pem })
rotated a pem = record { status = here; uri = refl; blueprint = refl; owner = refl }

module _ (settings : Settings) (env : Environment) (key : Option String) where
  pub create_agent-Writes : (body : AgentCreate) → Writes (create_agent settings env key body)
  unfolding create_agent
  create_agent-Writes body = search (writes_rules, admin-Writes, create-Writes) depth 12

  pub activate_agent-Writes : (id : ℕ) → Writes (activate_agent settings env key id)
  unfolding activate_agent update save_agent
  activate_agent-Writes id =
      Relates-bind WorldEvolves evolution _ _ (admin-Writes settings env key) λ _.
        existing-Writes id _ λ w a found. elim (Bool-cases (can_activate a.status)) [
          | inl may ↦ rw may (
              saved w.db w.durable _
                (agent-Evolves w.db _ a found (moved a (activation a.status may) _ _ _)))
          | inr may_not ↦ rw may_not (WorldEvolves-refl w)
        ]

  pub suspend_agent-Writes : (id : ℕ) → Writes (suspend_agent settings env key id)
  unfolding suspend_agent update save_agent
  suspend_agent-Writes id =
      Relates-bind WorldEvolves evolution _ _ (admin-Writes settings env key) λ _.
        existing-Writes id _ λ w a found. elim (Bool-cases (is_agent_active a.status)) [
          | inl may ↦ rw may (
              saved w.db w.durable _
                (agent-Evolves w.db _ a found (moved a (suspension a.status may) _ _ _)))
          | inr may_not ↦ rw may_not (WorldEvolves-refl w)
        ]

  pub revoke_agent-Writes : (id : ℕ) → Writes (revoke_agent settings env key id)
  unfolding revoke_agent update save_agent
  revoke_agent-Writes id =
      Relates-bind WorldEvolves evolution _ _ (admin-Writes settings env key) λ _.
        existing-Writes id _ λ w a found.
          saved w.db w.durable _ (agent-Evolves w.db _ a found (moved a (revoke a.status) _ _ _))

  pub rotate_key-Writes : (id : ℕ) (pem : String) → Writes (rotate_key settings env key id pem)
  unfolding rotate_key update save_agent
  rotate_key-Writes id pem =
      Relates-bind WorldEvolves evolution _ _ (admin-Writes settings env key) λ _.
        existing-Writes id _
          λ w a found. saved w.db w.durable _ (agent-Evolves w.db _ a found (rotated a pem))
