-- ===== src/Identity/Requests/Revoked.antt =====
-- A revocation is final: no run of requests brings a revoked agent, session or delegation back.
use agent_identity_lab.Prelude.{ℕ, ◌≡◌, refl, Option, none, some, List, subst}
use mathlib.Core.Option.{some-injective}
use agent_identity_lab.Common.{Settings, AgentStatus, revoked}
use agent_identity_lab.Models.{AgentIdentity, AgentSession, DelegationGrant}
use agent_identity_lab.Attestation.{Primitives}
use agent_identity_lab.Tokens.{Jwt}
use agent_identity_lab.Database.{World, Environment, find_agent, find_session, find_delegation}
use agent_identity_lab.Database.Evolution.{StaysSet, Kept, AgentKept, SessionKept, GrantKept}
use agent_identity_lab.Database.Registry.{
  suspend, revoke, activate_draft, activate_pending, activate_suspended, Leads, here, next,
}
use agent_identity_lab.Identity.Requests.{Request, serve}
use agent_identity_lab.Identity.Requests.Permanence.{serve-Evolves}

-- `revoked` is the end of the life cycle.
after_revoked : {s t : AgentStatus} → Leads s t → s ≡ revoked → t ≡ revoked
after_revoked here e = e
after_revoked (next h activate_draft) e = absurd (cc (after_revoked h e))
after_revoked (next h activate_pending) e = absurd (cc (after_revoked h e))
after_revoked (next h activate_suspended) e = absurd (cc (after_revoked h e))
after_revoked (next h suspend) e = absurd (cc (after_revoked h e))
after_revoked (next h (revoke s)) e = refl

Kept-row :
    {R : Type 0} (K : R → R → Type 0) (a : R) (o p : Option R)
    → o ≡ some a
    → Kept K o p
    → (b : R) × (p ≡ some b) × K a b
Kept-row K a none p e h = absurd (cc e)
Kept-row K a (some q) none e h = absurd h
Kept-row K a (some q) (some b) e h = (b, refl, subst (λ x. K x b) (some-injective q a e) h)

stays : (o p : Option ℕ) (t : ℕ) → o ≡ some t → StaysSet o p → p ≡ some t
stays o p t e h = subst (λ q. StaysSet q p) e h

module _ (settings : Settings) (env : Environment) (prims : Primitives) (jwt : Jwt) where
  -- An agent that is revoked in the committed tables is there and revoked after any requests to
  -- the Identity API; so neither `activate` nor a new key brings it back.
  pub serve-revoked_agent :
      (rs : List Request) (w : World) (id : ℕ) (a : AgentIdentity)
      → find_agent id w.durable ≡ some a
      → a.status ≡ revoked
      → (b : AgentIdentity) × (find_agent id (serve settings env prims jwt rs w).durable ≡ some b)
        × (b.status ≡ revoked)
  serve-revoked_agent rs w id a found gone =
      let (b, e, kept) =
        Kept-row AgentKept a _ _ found ((serve-Evolves settings env prims jwt rs w).agents id) in
      (b, e, after_revoked kept.status gone)

  -- A session that is revoked at a time in the committed tables is there and revoked at that time
  -- after any requests to the Identity API, with the scopes it had.
  pub serve-revoked_session :
      (rs : List Request) (w : World) (id t : ℕ) (s : AgentSession)
      → find_session id w.durable ≡ some s
      → s.revoked_at ≡ some t
      → (u : AgentSession) × (find_session id (serve settings env prims jwt rs w).durable ≡ some u)
        × (u.revoked_at ≡ some t)
        × (u.effective_scopes ≡ s.effective_scopes)
  serve-revoked_session rs w id t s found gone =
      let (u, e, kept) =
        Kept-row SessionKept s _ _ found
          ((serve-Evolves settings env prims jwt rs w).sessions id) in
      (u, e, stays _ _ t gone kept.revoked, kept.scopes)

  -- A delegation that is revoked at a time in the committed tables is there and revoked at that
  -- time after any requests to the Identity API, for the user and the agent it was for.
  pub serve-revoked_delegation :
      (rs : List Request) (w : World) (id t : ℕ) (g : DelegationGrant)
      → find_delegation id w.durable ≡ some g
      → g.revoked_at ≡ some t
      → (h : DelegationGrant) × (find_delegation id (serve settings env prims jwt rs w).durable
          ≡ some h)
        × (h.revoked_at ≡ some t)
        × (h.user_id ≡ g.user_id)
        × (h.agent_id ≡ g.agent_id)
  serve-revoked_delegation rs w id t g found gone =
      let (h, e, kept) =
        Kept-row GrantKept g _ _ found
          ((serve-Evolves settings env prims jwt rs w).delegations id) in
      (h, e, stays _ _ t gone kept.revoked, kept.user, kept.agent)
