-- ===== src/Identity/Sessions/Steps.antt =====
-- The requests on sessions evolve the tables, and opening one commits nothing of its own.
use agent_identity_lab.Prelude.{
  ℕ, String, ◌≡◌, refl, sym, subst, ◌∙◌, inl, inr, false, Option, none, some, arith, Option-cases,
  Bool-cases, is_some,
}
use agent_identity_lab.Json.{Json, Dict}
use agent_identity_lab.Common.{Settings}
use agent_identity_lab.Exec.{Exec}
use agent_identity_lab.Exec.Keeps.{
  IsPreorder, Relates, Relates-bind, Relates-pure, Relates-raise, Relates-raise_if,
  Relates-or_raise, Relates-lift, Relates-gets,
}
use agent_identity_lab.Models.{AgentSession, AgentBlueprint, RuntimeAttestation, DelegationGrant}
use agent_identity_lab.Models.Table.{find-key}
use agent_identity_lab.Attestation.{Primitives}
use agent_identity_lab.Tokens.{Jwt}
use agent_identity_lab.Database.{
  World, Db, Environment, find_session, save_session, now, new_uuid, get, add_attestation,
  add_session,
}
use agent_identity_lab.Database.Evolution.{set_once, SessionKept}
use agent_identity_lab.Database.Writes.{
  WorldEvolves, WorldEvolves-refl, evolution, Writes, writes_rules, saved,
}
use agent_identity_lab.Database.Changes.{session-Evolves}
use agent_identity_lab.Identity.Sessions.{
  SessionCreateRequest, Opener, opener, check_delegation, check_grant, verify_now,
  store_attestation, attest, issue_now, open_session, service_create_session,
  service_revoke_session,
}
use agent_identity_lab.Identity.Sessions.Api.{catching, create_session, revoke_session}

-- Nothing was committed.
abbrev pub SameDurable : World → World → Type 0
SameDurable w v = v.durable ≡ w.durable

pub same_durable : IsPreorder SameDurable
same_durable = record { reflexive = λ w. refl; transitive = λ s t u h k. k ∙ h }

abbrev pub Uncommitted : {A : Type 0} → Exec World A → Type 0
Uncommitted m = Relates SameDurable m

pub now-Uncommitted : (env : Environment) → Uncommitted (now env)
now-Uncommitted env = record { at = λ w. refl }

pub new_uuid-Uncommitted : (env : Environment) → Uncommitted (new_uuid env)
new_uuid-Uncommitted env = record { at = λ w. refl }

pub get-Uncommitted : {R : Type 0} (look : ℕ → Db → Option R) (id : ℕ) → Uncommitted (get look id)
get-Uncommitted look id = record { at = λ w. refl }

pub add_attestation-Uncommitted : (a : RuntimeAttestation) → Uncommitted (add_attestation a)
unfolding add_attestation
add_attestation-Uncommitted a = record { at = λ w. ground arith }

pub add_session-Uncommitted : (s : AgentSession) → Uncommitted (add_session s)
unfolding add_session
add_session-Uncommitted s = record { at = λ w. ground arith }

pub ruleset uncommitted_rules = (
  Relates-bind, Relates-pure, Relates-raise, Relates-raise_if, Relates-or_raise, Relates-lift,
  Relates-gets, same_durable, now-Uncommitted, new_uuid-Uncommitted, get-Uncommitted,
  add_attestation-Uncommitted, add_session-Uncommitted,
)

opener-Writes : (id : ℕ) → Writes (opener id) × Uncommitted (opener id)
unfolding opener
opener-Writes id = (search writes_rules depth 14, search uncommitted_rules depth 14)

check_grant-Writes :
    (g : DelegationGrant) (id t : ℕ)
    → Writes (check_grant g id t) × Uncommitted (check_grant g id t)
unfolding check_grant
check_grant-Writes g id t = (search writes_rules depth 14, search uncommitted_rules depth 14)

check_delegation-Writes :
    (env : Environment) (grant : Option ℕ) (id : ℕ)
    → Writes (check_delegation env grant id) × Uncommitted (check_delegation env grant id)
unfolding check_delegation
check_delegation-Writes env none id = (search writes_rules, search uncommitted_rules)
check_delegation-Writes env (some g) id = (
  search (writes_rules, λ (g : DelegationGrant) (i t : ℕ). (check_grant-Writes g i t).0) depth 14,
  search (uncommitted_rules, λ (g : DelegationGrant) (i t : ℕ). (check_grant-Writes g i t).1) depth
      14,
)

module _ (settings : Settings) (env : Environment) (prims : Primitives) (jwt : Jwt) where
  verify_now-Writes :
      (claims : Dict) (signature : Json) (pem : String) (id : ℕ)
      → Writes (verify_now settings env prims jwt claims signature pem id)
  unfolding verify_now
  verify_now-Writes claims signature pem id = record { at = λ w. WorldEvolves-refl w }

  verify_now-Uncommitted :
      (claims : Dict) (signature : Json) (pem : String) (id : ℕ)
      → Uncommitted (verify_now settings env prims jwt claims signature pem id)
  unfolding verify_now
  verify_now-Uncommitted claims signature pem id = record { at = λ w. refl }

  store_attestation-Writes :
      (body : SessionCreateRequest) (claims : Dict) (signature : Json)
      → Writes (store_attestation settings env prims jwt body claims signature)
        × Uncommitted (store_attestation settings env prims jwt body claims signature)
  unfolding store_attestation
  store_attestation-Writes body claims signature =
      (search writes_rules depth 16, search uncommitted_rules depth 16)

  attest-Writes :
      (body : SessionCreateRequest) (claims : Dict) (signature : Json) (who : Opener)
      → Writes (attest settings env prims jwt body claims signature who)
        × Uncommitted (attest settings env prims jwt body claims signature who)
  unfolding attest
  attest-Writes body claims signature who = (
    search
        (
          writes_rules,
          verify_now-Writes,
          λ (b : SessionCreateRequest) (c : Dict) (s : Json). (store_attestation-Writes b c s).0,
        )
        depth 16,
    search
        (
          uncommitted_rules,
          verify_now-Uncommitted,
          λ (b : SessionCreateRequest) (c : Dict) (s : Json). (store_attestation-Writes b c s).1,
        )
        depth 16,
  )

  issue_now-Writes :
      (session : AgentSession) (b : AgentBlueprint)
      → Writes (issue_now settings env prims jwt session b)
        × Uncommitted (issue_now settings env prims jwt session b)
  unfolding issue_now
  issue_now-Writes session b = (search writes_rules depth 16, search uncommitted_rules depth 16)

  open_session-Writes :
      (body : SessionCreateRequest) (b : AgentBlueprint) (a : RuntimeAttestation)
      → Writes (open_session settings env prims jwt body b a)
        × Uncommitted (open_session settings env prims jwt body b a)
  unfolding open_session
  open_session-Writes body b a = (
    search (writes_rules, λ (s : AgentSession) (q : AgentBlueprint). (issue_now-Writes s q).0) depth
        16,
    search (uncommitted_rules, λ (s : AgentSession) (q : AgentBlueprint). (issue_now-Writes s q).1)
        depth 16,
  )

  service_create_session-Writes :
      (body : SessionCreateRequest) (claims : Dict) (signature : Json)
      → Writes (service_create_session settings env prims jwt body claims signature)
        × Uncommitted (service_create_session settings env prims jwt body claims signature)
  unfolding service_create_session
  service_create_session-Writes body claims signature = (
    Relates-bind WorldEvolves evolution _ _ (opener-Writes body.agent_id).0 λ who.
        Relates-bind WorldEvolves evolution _ _ (attest-Writes body claims signature who).0 λ a.
          Relates-bind WorldEvolves evolution _ _
            (check_delegation-Writes env body.delegation_grant_id body.agent_id).0
            λ _. (open_session-Writes body who.blueprint a).0,
    Relates-bind SameDurable same_durable _ _ (opener-Writes body.agent_id).1 λ who.
        Relates-bind SameDurable same_durable _ _ (attest-Writes body claims signature who).1 λ a.
          Relates-bind SameDurable same_durable _ _
            (check_delegation-Writes env body.delegation_grant_id body.agent_id).1
            λ _. (open_session-Writes body who.blueprint a).1,
  )

  catching-Relates :
      {A : Type 0} (R : World → World → Type 0) (m : Exec World A)
      → Relates R m
      → Relates R (catching m)
  catching-Relates R m h = record { at = h.at }

  pub create_session-Writes :
      (body : SessionCreateRequest) → Writes (create_session settings env prims jwt body)
  unfolding create_session
  create_session-Writes body =
      Relates-bind WorldEvolves evolution _ _ (Relates-raise_if WorldEvolves evolution _ _)
        λ _. catching-Relates WorldEvolves _ (service_create_session-Writes body _ _).0

  pub create_session-Uncommitted :
      (body : SessionCreateRequest) → Uncommitted (create_session settings env prims jwt body)
  unfolding create_session
  create_session-Uncommitted body =
      Relates-bind SameDurable same_durable _ _ (Relates-raise_if SameDurable same_durable _ _)
        λ _. catching-Relates SameDurable _ (service_create_session-Writes body _ _).1

revoked_session :
    (s : AgentSession) (t : ℕ)
    → is_some s.revoked_at ≡ false
    → SessionKept s (record s { revoked_at = some t })
revoked_session s t h = record {
  agent = refl;
  grant = refl;
  scopes = refl;
  attestation = refl;
  expires = refl;
  revoked = set_once s.revoked_at (some t) h;
}

module _ (env : Environment) where
  service_revoke_session-at :
      (id : ℕ) (w : World) → WorldEvolves w (service_revoke_session env id w).1
  unfolding service_revoke_session save_session
  service_revoke_session-at id w = elim (Option-cases (find_session id w.db)) [
    | inl missing ↦ rw missing (WorldEvolves-refl w)
    | inr (s, e) ↦ elim (Bool-cases (is_some s.revoked_at)) [
      | inl revoked ↦ rw (e, revoked) (WorldEvolves-refl w)
      | inr valid ↦
          rw (e, valid)
            (saved w.db w.durable _ (
              session-Evolves w.db _ s
                (subst (λ j. find_session j w.db ≡ some s)
                  (sym (find-key (λ r. r.id) id s w.db.sessions e)) e)
                (revoked_session s _ valid)))
    ]
  ]

  pub revoke_session-Writes : (id : ℕ) → Writes (revoke_session env id)
  unfolding revoke_session
  revoke_session-Writes id =
      Relates-bind WorldEvolves evolution (catching (service_revoke_session env id)) _
        (record { at = service_revoke_session-at id }) λ _. Relates-pure WorldEvolves evolution _
