-- ===== src/Broker/Leases.antt =====
-- An exchange that answers has written the lease of what it answers.
use agent_identity_lab.Prelude.{
  if◌then◌else◌, ◌==◌, ℕ, ◌+◌, String, ◌≡◌, refl, sym, subst, ap, ◌∙◌, Bool, true, false, ◌||◌,
  none, some, List, [], ◌∷◌, ◌++◌, is_some, lookup,
}
use agent_identity_lab.Prelude.Int.{pos, add_seconds}
use agent_identity_lab.Exec.{value_error, database_error, Result, ok, err}
use agent_identity_lab.Exec.Ensures.{
  Ensures, Ensures-ok, Ensures-bind, Ensures-or_raise, Ensures-refused_if, ok-injective, of_not,
}
use agent_identity_lab.Models.{CredentialLease}
use agent_identity_lab.Database.{Db, World, Environment, add_lease, find_session}
use agent_identity_lab.Broker.{
  Provider, Credential, TokenExchangeRequest, ExchangeReply, providers, select_provider,
  value_handler, issue, issue_mock_oauth, issue_static_secret, lease_row, lease, exchange,
  token_exchange,
}

-- The lease of a request, in the table of leases behind those that were there: for a stored
-- session, from the provider of the tool, with the scopes asked for, for half an hour.
pub record IsLeased (env : Environment) (request : TokenExchangeRequest) (w : World)
    (answer : ExchangeReply) (v : World) : Type 0 where
  pub lease : CredentialLease
  pub stored : v.db ≡ record w.db { leases = w.db.leases ++ lease ∷ [] }
  pub named : answer.lease_id ≡ env.uuid_str lease.id
  pub parsed : env.parse_uuid request.session_id ≡ some lease.session_id
  pub session : is_some (find_session lease.session_id w.db) ≡ true
  pub tool : lease.tool_id ≡ request.tool_id
  pub scopes : lease.scopes ≡ request.scopes
  pub provider :
      lease.provider ≡ (if request.tool_id == "github" then "mock_oauth" else "static_secret")
  pub half_hour : lease.expires_at ≡ add_seconds lease.issued_at (pos 1800)
  pub standing : lease.revoked_at ≡ none

or_false : (a b : Bool) → (a || b) ≡ false → b ≡ false
or_false false b h = h
or_false true b h = absurd (cc h)

add_lease-after :
    (l : CredentialLease) (w : World)
    → Ensures (add_lease l w) (λ _ v.
      (is_some (find_session l.session_id w.db) ≡ true)
      × (v ≡ record w { db = record w.db { leases = w.db.leases ++ l ∷ [] } }))
unfolding add_lease
add_lease-after l w =
    Ensures-refused_if Q _ database_error w _
      λ passes. Ensures-ok Q tt _ (of_not _ (or_false _ _ passes), refl)
  where
    Q : Unit {0} → World → Type 0
    Q _ v =
        (is_some (find_session l.session_id w.db) ≡ true)
        × (v ≡ record w { db = record w.db { leases = w.db.leases ++ l ∷ [] } })

module _ (env : Environment) (isoformat : ℕ → String) where
  issue-keeps :
      (p : Provider) (tool_id : String) (scopes : List String) (w : World)
      → (issue env isoformat p tool_id scopes w).1.db ≡ w.db
  unfolding issue issue_mock_oauth issue_static_secret
  issue-keeps Provider.mock_oauth tool_id scopes w = refl
  issue-keeps Provider.static_secret tool_id scopes w = refl

  lease-IsLeased :
      (request : TokenExchangeRequest) (credential : Credential) (w : World)
      → Ensures
          (lease env isoformat
            (select_provider request.tool_id)
            request.tool_id
            request.scopes
            request.session_id
            credential
            w)
          (IsLeased env request w)
  unfolding lease select_provider
  lease-IsLeased request credential w =
      Ensures-or_raise Q (env.parse_uuid request.session_id) _ _ _ λ session parsed.
        Ensures-bind (After session) Q (add_lease (row session)) _
          (record w { draws = w.draws + 1 + 1 }) (add_lease-after (row session) _)
          λ _ (there, after). λ answer returned. record {
            lease = row session;
            stored = ap (λ v. v.db) after;
            named = ap (λ a. a.lease_id) (sym (ok-injective _ answer returned));
            parsed = parsed;
            session = there;
            tool = refl;
            scopes = refl;
            provider = refl;
            half_hour = refl;
            standing = refl;
          }
    where
      row : ℕ → CredentialLease
      row session =
          lease_row (env.uuid (w.draws + 1)) session (env.time w.draws)
            (select_provider request.tool_id) request.tool_id request.scopes

      After : ℕ → Unit {0} → World → Type 0
      After session _ v =
          (is_some (find_session session w.db) ≡ true)
          × (v ≡ record w {
            db = record w.db { leases = w.db.leases ++ row session ∷ [] };
            draws = w.draws + 1 + 1;
          })

      Q : ExchangeReply → World → Type 0
      Q = IsLeased env request w

  exchange-IsLeased :
      (request : TokenExchangeRequest) (w : World)
      → Ensures
          (exchange env isoformat request.tool_id request.scopes request.session_id w)
          (IsLeased env request w)
  unfolding exchange
  exchange-IsLeased request w =
      Ensures-or_raise Q (lookup (select_provider request.tool_id) providers) _ _ w λ provider _.
        Ensures-bind (λ _ v. v.db ≡ w.db) Q
          (issue env isoformat provider request.tool_id request.scopes) _ w
          (λ credential _. issue-keeps provider request.tool_id request.scopes w)
          λ credential same answer returned.
            let l = lease-IsLeased request credential _ answer returned in
            record {
              lease = l.lease;
              stored =
                  l.stored ∙ ap {A = Db} (λ d. record d { leases = d.leases ++ l.lease ∷ [] }) same;
              named = l.named;
              parsed = l.parsed;
              session =
                  subst (λ d. is_some (find_session l.lease.session_id d) ≡ true) same l.session;
              tool = l.tool;
              scopes = l.scopes;
              provider = l.provider;
              half_hour = l.half_hour;
              standing = l.standing;
            }
    where
      Q : ExchangeReply → World → Type 0
      Q = IsLeased env request w

  answered : {A : Type 0} (r : Result A) (a : A) → value_handler r ≡ ok a → r ≡ ok a
  answered (ok b) a h = h
  answered (err (value_error m)) a h = absurd (cc h)
  answered (err e) a h = absurd (cc h)

  -- A POST /v1/token-exchange that answers has added one lease to the tables and changed nothing
  -- else in them: for the session of the request, which is stored, from the provider of the tool,
  -- with the scopes of the request, for half an hour, not revoked; the answer carries its id.
  pub token_exchange-IsLeased :
      (request : TokenExchangeRequest) (w v : World) (answer : ExchangeReply)
      → token_exchange env isoformat request w ≡ (ok answer, v)
      → IsLeased env request w answer v
  unfolding token_exchange
  token_exchange-IsLeased request w v answer h =
      subst (IsLeased env request w answer) (ap (λ p. p.1) h)
        (exchange-IsLeased request w answer (answered _ answer (ap (λ p. p.0) h)))
