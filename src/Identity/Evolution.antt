-- ===== src/Identity/Evolution.antt =====
-- The requests on delegations, blueprints and sessions evolve the tables.
use agent_identity_lab.Prelude.{
  ℕ, String, ◌≡◌, refl, sym, subst, inl, inr, false, Option, none, some, arith, Option-cases,
  Bool-cases, is_some,
}
use agent_identity_lab.Prelude.Int.{ℤ}
use agent_identity_lab.Common.{Settings}
use agent_identity_lab.Exec.{Exec, ◌>>=◌}
use agent_identity_lab.Exec.Keeps.{Relates-bind}
use agent_identity_lab.Models.{DelegationGrant, AgentBlueprint}
use agent_identity_lab.Models.Table.{find-key}
use agent_identity_lab.Database.{
  World, Environment, find_delegation, find_blueprint, save_delegation, save_blueprint,
}
use agent_identity_lab.Database.Evolution.{set_once, GrantKept, BlueprintKept}
use agent_identity_lab.Database.Writes.{
  WorldEvolves, WorldEvolves-refl, evolution, Writes, writes_rules, saved,
}
use agent_identity_lab.Database.Changes.{grant-Evolves, blueprint-Evolves}
use agent_identity_lab.Identity.{require_admin}
use agent_identity_lab.Identity.Delegations.{
  DelegationCreate, existing_delegation, create_delegation, revoke_delegation,
}
use agent_identity_lab.Identity.Blueprints
use agent_identity_lab.Identity.Blueprints.{
  BlueprintCreate, BlueprintUpdate, Patch, patch, with_patched, patched, get_by_slug,
  existing_blueprint, create_blueprint, update_blueprint, activate_blueprint, deactivate_blueprint,
}

require_admin-Writes :
    (settings : Settings) (key : Option String) → Writes (require_admin settings key)
unfolding require_admin
require_admin-Writes settings key = search writes_rules

revoked_grant :
    (g : DelegationGrant) (t : ℕ)
    → is_some g.revoked_at ≡ false
    → GrantKept g (record g { revoked_at = some t })
revoked_grant g t h = record {
  user = refl;
  agent = refl;
  scopes = refl;
  expires = refl;
  revoked = set_once g.revoked_at (some t) h;
}

existing_delegation-Writes :
    {B : Type 0} (id : ℕ) (f : DelegationGrant → Exec World B)
    → ((w : World) (g : DelegationGrant)
        → find_delegation g.id w.db ≡ some g
        → WorldEvolves w (f g w).1)
    → Writes (existing_delegation id >>= f)
unfolding existing_delegation
existing_delegation-Writes id f h = record {
  at = λ w. elim (Option-cases (find_delegation id w.db)) [
    | inl missing ↦ rw missing (WorldEvolves-refl w)
    | inr (g, e) ↦ rw e (
        h w g (
          subst (λ j. find_delegation j w.db ≡ some g)
            (sym (find-key (λ r. r.id) id g w.db.delegations e)) e))
  ];
}

existing_blueprint-Writes :
    {B : Type 0} (id : ℕ) (f : AgentBlueprint → Exec World B)
    → ((w : World) (b : AgentBlueprint)
        → find_blueprint b.id w.db ≡ some b
        → WorldEvolves w (f b w).1)
    → Writes (existing_blueprint id >>= f)
unfolding existing_blueprint
existing_blueprint-Writes id f h = record {
  at = λ w. elim (Option-cases (find_blueprint id w.db)) [
    | inl missing ↦ rw missing (WorldEvolves-refl w)
    | inr (b, e) ↦ rw e (
        h w b (
          subst (λ j. find_blueprint j w.db ≡ some b)
            (sym (find-key (λ r. r.id) id b w.db.blueprints e)) e))
  ];
}

with_patched-kept :
    (b c : AgentBlueprint) (body : BlueprintUpdate) (o : Option String) (t : Option ℤ)
    → with_patched b body o t ≡ some c
    → BlueprintKept b c × (c.id ≡ b.id)
with_patched-kept b c body none t h = absurd (cc)
with_patched-kept b c body (some n) none h = absurd (cc)
with_patched-kept b c body (some n) (some t) h = ground arith

patched-kept :
    (b c : AgentBlueprint) (body : BlueprintUpdate)
    → patched b body ≡ some c
    → BlueprintKept b c × (c.id ≡ b.id)
unfolding patched
patched-kept b c body = with_patched-kept b c body _ _

module _ (settings : Settings) (env : Environment) (key : Option String) where
  pub create_delegation-Writes :
      (body : DelegationCreate) → Writes (create_delegation settings env key body)
  unfolding create_delegation
  create_delegation-Writes body = search (writes_rules, require_admin-Writes) depth 12

  pub revoke_delegation-Writes : (id : ℕ) → Writes (revoke_delegation settings env key id)
  unfolding revoke_delegation save_delegation
  revoke_delegation-Writes id =
      Relates-bind WorldEvolves evolution _ _ (require_admin-Writes settings key) λ _.
        existing_delegation-Writes id _ λ w g found. elim (Bool-cases (is_some g.revoked_at)) [
          | inl revoked ↦ rw revoked (WorldEvolves-refl w)
          | inr valid ↦
              rw valid
                (saved w.db w.durable _ (grant-Evolves w.db _ g found (revoked_grant g _ valid)))
        ]

  blueprint_admin-Writes : Writes (Blueprints.admin settings env key)
  unfolding Blueprints.admin
  blueprint_admin-Writes = search writes_rules

  blueprint_create-Writes : (b : AgentBlueprint) → Writes (Blueprints.create b)
  unfolding Blueprints.create
  blueprint_create-Writes b = search writes_rules

  get_by_slug-Writes : (slug : String) → Writes (get_by_slug slug)
  unfolding get_by_slug
  get_by_slug-Writes slug = search writes_rules

  pub create_blueprint-Writes :
      (body : BlueprintCreate) → Writes (create_blueprint settings env key body)
  unfolding create_blueprint
  create_blueprint-Writes body =
      search (writes_rules, blueprint_admin-Writes, blueprint_create-Writes, get_by_slug-Writes)
        depth 12

  pub update_blueprint-Writes :
      (id : ℕ) (body : BlueprintUpdate) → Writes (update_blueprint settings env key id body)
  unfolding update_blueprint Blueprints.update save_blueprint
  update_blueprint-Writes id body =
      Relates-bind WorldEvolves evolution _ _ blueprint_admin-Writes λ _.
        existing_blueprint-Writes id _ λ w b found. elim (Option-cases (patched b body)) [
          | inl null ↦ rw null (WorldEvolves-refl w)
          | inr (c, e) ↦
              let (kept, same) = patched-kept b c body e in
              rw e (
                saved w.db w.durable _ (
                  blueprint-Evolves w.db c b
                    (subst (λ j. find_blueprint j w.db ≡ some b) (sym same) found) kept))
        ]

  pub activate_blueprint-Writes : (id : ℕ) → Writes (activate_blueprint settings env key id)
  unfolding activate_blueprint Blueprints.update save_blueprint
  activate_blueprint-Writes id = Relates-bind WorldEvolves evolution _ _ blueprint_admin-Writes λ _.
      existing_blueprint-Writes id _ λ w b found.
        saved w.db w.durable _
          (blueprint-Evolves w.db _ b found (record { slug = refl; version = omega arith }))

  pub deactivate_blueprint-Writes : (id : ℕ) → Writes (deactivate_blueprint settings env key id)
  unfolding deactivate_blueprint Blueprints.update save_blueprint
  deactivate_blueprint-Writes id =
      Relates-bind WorldEvolves evolution _ _ blueprint_admin-Writes λ _.
        existing_blueprint-Writes id _ λ w b found.
          saved w.db w.durable _
            (blueprint-Evolves w.db _ b found (record { slug = refl; version = omega arith }))
