-- ===== src/Identity/Requests/Unauthorized.antt =====
-- Without the admin key the administrative routes change nothing.
use agent_identity_lab.Prelude.{
  String, ◌≡◌, refl, sym, ap, subst, false, ◌==◌, Option, none, some, get_or, Bool-cases, inl, inr,
}
use mathlib.Core.Option.{some-injective}
use agent_identity_lab.Common.{Settings}
use agent_identity_lab.Exec.{Error, http, err, Exec, and_then, ◌>>=◌}
use agent_identity_lab.Attestation.{Primitives}
use agent_identity_lab.Tokens.{Jwt}
use agent_identity_lab.Database.{World, Environment}
use agent_identity_lab.Database.Transaction.{finish, with_db}
use agent_identity_lab.Identity.{require_admin, require_admin_header, unauthorized}
use agent_identity_lab.Identity.Agents
use agent_identity_lab.Identity.Agents.{
  create_agent, activate_agent, suspend_agent, revoke_agent, rotate_key,
}
use agent_identity_lab.Identity.Blueprints
use agent_identity_lab.Identity.Blueprints.{
  create_blueprint, update_blueprint, activate_blueprint, deactivate_blueprint,
}
use agent_identity_lab.Identity.Delegations.{create_delegation, revoke_delegation}
use agent_identity_lab.Identity.Requests.{
  Request, post_agent, post_agent_activate, post_agent_suspend, post_agent_revoke,
  post_agent_rotate_key, post_session, post_session_revoke, post_delegation, post_delegation_revoke,
  post_blueprint, put_blueprint, post_blueprint_activate, post_blueprint_deactivate, state_after,
  handle,
}

-- The admin key that a request of an administrative route brings.
unfoldable pub key_of : Request → Option (Option String)
key_of (post_agent key body) = some key
key_of (post_agent_activate key id) = some key
key_of (post_agent_suspend key id) = some key
key_of (post_agent_revoke key id) = some key
key_of (post_agent_rotate_key key id pem) = some key
key_of (post_session body) = none
key_of (post_session_revoke id) = none
key_of (post_delegation key body) = some key
key_of (post_delegation_revoke key id) = some key
key_of (post_blueprint key body) = some key
key_of (put_blueprint key id body) = some key
key_of (post_blueprint_activate key id) = some key
key_of (post_blueprint_deactivate key id) = some key

abbrev denied : Error
denied = http 401 unauthorized

rolled_back :
    {A : Type 0} (m : Exec World A) (w : World)
    → m (record w { db = w.durable }) ≡ (err denied, record w { db = w.durable })
    → state_after m w ≡ record w { db = w.durable }
unfolding with_db
rolled_back m w e = ap (λ p. (finish p).1) e

bind_failed :
    {A B : Type 0} (m : Exec World A) (f : A → Exec World B) (w : World)
    → m w ≡ (err denied, w)
    → (m >>= f) w ≡ (err denied, w)
bind_failed m f w e = ap (λ p. and_then p.0 f p.1) e

module _ (settings : Settings) (env : Environment) where
  abbrev Wrong : Option String → Type 0
  Wrong key = (get_or key "" == settings.admin_api_key) ≡ false

  own : (k key : Option String) → some k ≡ some key → Wrong key → Wrong k
  own k key e wrong = subst Wrong (sym (some-injective k key e)) wrong

  require_admin-denied :
      (k : Option String) (w : World) → Wrong k → require_admin settings k w ≡ (err denied, w)
  unfolding require_admin
  require_admin-denied k w wrong = elim (Bool-cases (get_or k "" == "")) [
    | inl empty ↦ rw empty refl
    | inr given ↦ rw (given, wrong) refl
  ]

  -- Both dependencies of a route, whichever raises.
  abbrev both : Option String → Exec World (Unit {0})
  both k = require_admin_header k >>= λ _. require_admin settings k

  both-denied : (k : Option String) (w : World) → Wrong k → both k w ≡ (err denied, w)
  unfolding require_admin_header require_admin
  both-denied k w wrong = elim (Bool-cases (get_or k "" == "")) [
    | inl empty ↦ rw empty refl
    | inr given ↦ rw (given, wrong) refl
  ]

module _ (settings : Settings) (env : Environment) (prims : Primitives) (jwt : Jwt) where
  -- A request to an administrative route whose key, a missing one counted as empty, is not the
  -- configured one leaves the committed tables, the nonces and the clock as they were.
  pub handle-unauthorized :
      (r : Request) (w : World) (key : Option String)
      → key_of r ≡ some key
      → (get_or key "" == settings.admin_api_key) ≡ false
      → handle settings env prims jwt r w ≡ record w { db = w.durable }
  unfolding Agents.admin Blueprints.admin handle key_of create_agent activate_agent suspend_agent
      revoke_agent rotate_key create_delegation revoke_delegation create_blueprint update_blueprint
      activate_blueprint deactivate_blueprint
  handle-unauthorized (post_agent k body) w key e wrong =
      rolled_back (create_agent settings env k body) w (
        bind_failed (both settings env k) _ _
          (both-denied settings env k _ (own settings env k key e wrong)))
  handle-unauthorized (post_agent_activate k id) w key e wrong =
      rolled_back (activate_agent settings env k id) w (
        bind_failed (both settings env k) _ _
          (both-denied settings env k _ (own settings env k key e wrong)))
  handle-unauthorized (post_agent_suspend k id) w key e wrong =
      rolled_back (suspend_agent settings env k id) w (
        bind_failed (both settings env k) _ _
          (both-denied settings env k _ (own settings env k key e wrong)))
  handle-unauthorized (post_agent_revoke k id) w key e wrong =
      rolled_back (revoke_agent settings env k id) w (
        bind_failed (both settings env k) _ _
          (both-denied settings env k _ (own settings env k key e wrong)))
  handle-unauthorized (post_agent_rotate_key k id pem) w key e wrong =
      rolled_back (rotate_key settings env k id pem) w (
        bind_failed (both settings env k) _ _
          (both-denied settings env k _ (own settings env k key e wrong)))
  handle-unauthorized (post_delegation k body) w key e wrong =
      rolled_back (create_delegation settings env k body) w (
        bind_failed (require_admin settings k) _ _
          (require_admin-denied settings env k _ (own settings env k key e wrong)))
  handle-unauthorized (post_delegation_revoke k id) w key e wrong =
      rolled_back (revoke_delegation settings env k id) w (
        bind_failed (require_admin settings k) _ _
          (require_admin-denied settings env k _ (own settings env k key e wrong)))
  handle-unauthorized (post_blueprint k body) w key e wrong =
      rolled_back (create_blueprint settings env k body) w (
        bind_failed (both settings env k) _ _
          (both-denied settings env k _ (own settings env k key e wrong)))
  handle-unauthorized (put_blueprint k id body) w key e wrong =
      rolled_back (update_blueprint settings env k id body) w (
        bind_failed (both settings env k) _ _
          (both-denied settings env k _ (own settings env k key e wrong)))
  handle-unauthorized (post_blueprint_activate k id) w key e wrong =
      rolled_back (activate_blueprint settings env k id) w (
        bind_failed (both settings env k) _ _
          (both-denied settings env k _ (own settings env k key e wrong)))
  handle-unauthorized (post_blueprint_deactivate k id) w key e wrong =
      rolled_back (deactivate_blueprint settings env k id) w (
        bind_failed (both settings env k) _ _
          (both-denied settings env k _ (own settings env k key e wrong)))
  handle-unauthorized (post_session body) w key e wrong = absurd (cc e)
  handle-unauthorized (post_session_revoke id) w key e wrong = absurd (cc e)
