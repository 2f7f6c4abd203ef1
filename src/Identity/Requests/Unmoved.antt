-- ===== src/Identity/Requests/Unmoved.antt =====
-- The requests on sessions, delegations and blueprints leave the agents alone.
use agent_identity_lab.Prelude.{ℕ, String, ◌≡◌, refl, ◌∙◌, ◌⊎◌, inl, inr, Option, none, some, arith}
use agent_identity_lab.Json.{Json, Dict}
use agent_identity_lab.Common.{Settings}
use agent_identity_lab.Exec.{Exec}
use agent_identity_lab.Exec.Keeps.{
  IsPreorder, Relates, Relates-bind, Relates-pure, Relates-raise, Relates-raise_if,
  Relates-or_raise, Relates-lift, Relates-gets,
}
use agent_identity_lab.Models.{AgentBlueprint, AgentSession, RuntimeAttestation, DelegationGrant}
use agent_identity_lab.Attestation.{Primitives}
use agent_identity_lab.Tokens.{Jwt}
use agent_identity_lab.Database.{
  World, Db, Environment, now, new_uuid, get, commit, add_blueprint, add_attestation,
  add_delegation, add_session, save_blueprint, save_delegation, save_session,
}
use agent_identity_lab.Identity.{require_admin, require_admin_header}
use agent_identity_lab.Identity.Sessions.{
  SessionCreateRequest, Opener, opener, check_delegation, check_grant, verify_now,
  store_attestation, attest, issue_now, open_session, service_create_session,
  service_revoke_session,
}
use agent_identity_lab.Identity.Sessions.Api.{catching, create_session, revoke_session}
use agent_identity_lab.Identity.Delegations.{
  DelegationCreate, existing_delegation, create_delegation, revoke_delegation,
}
use agent_identity_lab.Identity.Blueprints
use agent_identity_lab.Identity.Blueprints.{
  BlueprintCreate, BlueprintUpdate, get_by_slug, existing_blueprint, create_blueprint,
  update_blueprint, activate_blueprint, deactivate_blueprint,
}

-- The agents that the transaction sees are as before, and the committed ones are one of both.
abbrev pub SameAgents : World → World → Type 0
SameAgents w v =
    (v.db.agents ≡ w.db.agents)
    × ((v.durable.agents ≡ w.durable.agents) ⊎ (v.durable.agents ≡ w.db.agents))

same_agents : IsPreorder SameAgents
same_agents = record {
  reflexive = λ w. (refl, inl refl);
  transitive = λ s t u (h, c) (k, b). (
    k ∙ h,
    elim b [
      | inl same ↦ elim c [ inl same' ↦ inl (same ∙ same') | inr came ↦ inr (same ∙ came) ]
      | inr came ↦ inr (came ∙ h)
    ],
  );
}

abbrev pub Unmoved : {A : Type 0} → Exec World A → Type 0
Unmoved m = Relates SameAgents m

now-Unmoved : (env : Environment) → Unmoved (now env)
now-Unmoved env = record { at = λ w. (refl, inl refl) }

new_uuid-Unmoved : (env : Environment) → Unmoved (new_uuid env)
new_uuid-Unmoved env = record { at = λ w. (refl, inl refl) }

get-Unmoved : {R : Type 0} (look : ℕ → Db → Option R) (id : ℕ) → Unmoved (get look id)
get-Unmoved look id = record { at = λ w. (refl, inl refl) }

commit-Unmoved : Unmoved commit
commit-Unmoved = record { at = λ w. (refl, inr refl) }

add_blueprint-Unmoved : (b : AgentBlueprint) → Unmoved (add_blueprint b)
unfolding add_blueprint
add_blueprint-Unmoved b = record { at = λ w. (ground arith, inl (ground arith)) }

add_attestation-Unmoved : (a : RuntimeAttestation) → Unmoved (add_attestation a)
unfolding add_attestation
add_attestation-Unmoved a = record { at = λ w. (ground arith, inl (ground arith)) }

add_delegation-Unmoved : (g : DelegationGrant) → Unmoved (add_delegation g)
unfolding add_delegation
add_delegation-Unmoved g = record { at = λ w. (ground arith, inl (ground arith)) }

add_session-Unmoved : (s : AgentSession) → Unmoved (add_session s)
unfolding add_session
add_session-Unmoved s = record { at = λ w. (ground arith, inl (ground arith)) }

save_blueprint-Unmoved : (b : AgentBlueprint) → Unmoved (save_blueprint b)
unfolding save_blueprint
save_blueprint-Unmoved b = record { at = λ w. (refl, inl refl) }

save_delegation-Unmoved : (g : DelegationGrant) → Unmoved (save_delegation g)
unfolding save_delegation
save_delegation-Unmoved g = record { at = λ w. (refl, inl refl) }

save_session-Unmoved : (s : AgentSession) → Unmoved (save_session s)
unfolding save_session
save_session-Unmoved s = record { at = λ w. (refl, inl refl) }

ruleset unmoved_rules = (
  Relates-bind, Relates-pure, Relates-raise, Relates-raise_if, Relates-or_raise, Relates-lift,
  Relates-gets, same_agents, now-Unmoved, new_uuid-Unmoved, get-Unmoved, commit-Unmoved,
  add_blueprint-Unmoved, add_attestation-Unmoved, add_delegation-Unmoved, add_session-Unmoved,
  save_blueprint-Unmoved, save_delegation-Unmoved, save_session-Unmoved,
)

catching-Unmoved : {A : Type 0} (m : Exec World A) → Unmoved m → Unmoved (catching m)
catching-Unmoved m h = record { at = h.at }

check_delegation-Unmoved :
    (env : Environment) (grant : Option ℕ) (id : ℕ) → Unmoved (check_delegation env grant id)
unfolding check_delegation check_grant
check_delegation-Unmoved env none id = search unmoved_rules
check_delegation-Unmoved env (some g) id = search unmoved_rules depth 24

module _ (settings : Settings) (env : Environment) (prims : Primitives) (jwt : Jwt) where
  verify_now-Unmoved :
      (claims : Dict) (signature : Json) (pem : String) (id : ℕ)
      → Unmoved (verify_now settings env prims jwt claims signature pem id)
  unfolding verify_now
  verify_now-Unmoved claims signature pem id = record { at = λ w. (refl, inl refl) }

  opener-Unmoved : (id : ℕ) → Unmoved (opener id)
  unfolding opener
  opener-Unmoved id = search unmoved_rules depth 20

  attest-Unmoved :
      (body : SessionCreateRequest) (claims : Dict) (signature : Json) (who : Opener)
      → Unmoved (attest settings env prims jwt body claims signature who)
  unfolding attest store_attestation
  attest-Unmoved body claims signature who = search (unmoved_rules, verify_now-Unmoved) depth 24

  open_session-Unmoved :
      (body : SessionCreateRequest) (b : AgentBlueprint) (a : RuntimeAttestation)
      → Unmoved (open_session settings env prims jwt body b a)
  unfolding open_session issue_now
  open_session-Unmoved body b a = search unmoved_rules depth 24

  service_create_session-Unmoved :
      (body : SessionCreateRequest) (claims : Dict) (signature : Json)
      → Unmoved (service_create_session settings env prims jwt body claims signature)
  unfolding service_create_session
  service_create_session-Unmoved body claims signature =
      search
        (
          unmoved_rules, opener-Unmoved, attest-Unmoved, check_delegation-Unmoved,
          open_session-Unmoved,
        )
        depth 24

  pub create_session-Unmoved :
      (body : SessionCreateRequest) → Unmoved (create_session settings env prims jwt body)
  unfolding create_session
  create_session-Unmoved body =
      Relates-bind SameAgents same_agents _ _ (Relates-raise_if SameAgents same_agents _ _)
        λ _. catching-Unmoved _ (service_create_session-Unmoved body _ _)

module _ (env : Environment) where
  service_revoke_session-Unmoved : (id : ℕ) → Unmoved (service_revoke_session env id)
  unfolding service_revoke_session
  service_revoke_session-Unmoved id = search unmoved_rules depth 24

  pub revoke_session-Unmoved : (id : ℕ) → Unmoved (revoke_session env id)
  unfolding revoke_session
  revoke_session-Unmoved id =
      search (unmoved_rules, catching-Unmoved, service_revoke_session-Unmoved)

module _ (settings : Settings) (env : Environment) (key : Option String) where
  pub create_delegation-Unmoved :
      (body : DelegationCreate) → Unmoved (create_delegation settings env key body)
  unfolding create_delegation require_admin
  create_delegation-Unmoved body = search unmoved_rules depth 24

  pub revoke_delegation-Unmoved : (id : ℕ) → Unmoved (revoke_delegation settings env key id)
  unfolding revoke_delegation require_admin existing_delegation
  revoke_delegation-Unmoved id = search unmoved_rules depth 24

  pub create_blueprint-Unmoved :
      (body : BlueprintCreate) → Unmoved (create_blueprint settings env key body)
  unfolding create_blueprint Blueprints.admin Blueprints.create get_by_slug require_admin
      require_admin_header
  create_blueprint-Unmoved body = search unmoved_rules depth 24

  pub update_blueprint-Unmoved :
      (id : ℕ) (body : BlueprintUpdate) → Unmoved (update_blueprint settings env key id body)
  unfolding update_blueprint Blueprints.admin Blueprints.update existing_blueprint require_admin
      require_admin_header
  update_blueprint-Unmoved id body = search unmoved_rules depth 24

  pub activate_blueprint-Unmoved : (id : ℕ) → Unmoved (activate_blueprint settings env key id)
  unfolding activate_blueprint Blueprints.admin Blueprints.update existing_blueprint require_admin
      require_admin_header
  activate_blueprint-Unmoved id = search unmoved_rules depth 24

  pub deactivate_blueprint-Unmoved : (id : ℕ) → Unmoved (deactivate_blueprint settings env key id)
  unfolding deactivate_blueprint Blueprints.admin Blueprints.update existing_blueprint require_admin
      require_admin_header
  deactivate_blueprint-Unmoved id = search unmoved_rules depth 24
