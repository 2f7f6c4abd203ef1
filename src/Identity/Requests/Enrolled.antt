-- ===== src/Identity/Requests/Enrolled.antt =====
-- What POST /v1/agents does to the registry of statuses.
use agent_identity_lab.Prelude.{
  ◌+◌, String, ◌≡◌, refl, sym, ap, subst, ◌∙◌, not, ◌==◌, Option, none, [], ◌∷◌, ◌++◌, get_or,
  arith,
}
use agent_identity_lab.Common.{Settings, draft, text}
use agent_identity_lab.Exec.{
  Error, Result, database_error, ok, err, Exec, and_then, ◌>>=◌, ◌>>◌, raise_if, or_raise, http,
}
use agent_identity_lab.Exec.Ensures.{
  Ensures, Ensures-raise_if, Ensures-or_raise, Ensures-refused_if, Ensures-ok, Ensures-bind,
  Ensures-last_raise_if,
}
use agent_identity_lab.Models.{AgentIdentity, AgentBlueprint}
use agent_identity_lab.Models.Table.{find}
use agent_identity_lab.Database.{World, Environment, get, find_agent, find_blueprint, add_agent}
use agent_identity_lab.Database.Transaction.{finish, with_db}
use agent_identity_lab.Database.Registry.{statuses, status_of, enrolled_shows}
use agent_identity_lab.Identity.{require_admin, require_admin_header, has_length}
use agent_identity_lab.Identity.Agents
use agent_identity_lab.Identity.Sessions.Steps.{Uncommitted, uncommitted_rules}
use agent_identity_lab.Identity.Agents.{
  AgentCreate, can_activate, is_agent_active, is_blueprint_active, create_agent, activate_agent,
  suspend_agent, revoke_agent, rotate_key, existing_agent,
}
use agent_identity_lab.Identity.Requests.{state_after}
use agent_identity_lab.Identity.Requests.Registry.{entered}

-- An error that comes before every commit.
record Refuses {A : Type 0} (m : Exec World A) : Type 0 where
  at : (w : World) (e : Error) → (m w).0 ≡ err e → (m w).1.durable ≡ w.durable

Refuses-bind :
    {A B : Type 0} (m : Exec World A) (f : A → Exec World B)
    → Uncommitted m
    → ((a : A) → Refuses (f a))
    → Refuses (m >>= f)
Refuses-bind {A = A} m f h k = record { at = λ w. go w (m w).0 (m w).1 (h.at w) }
  where
    go :
        (w : World) (r : Result A) (v : World)
        → v.durable ≡ w.durable
        → (e : Error) → (and_then r f v).0 ≡ err e
        → (and_then r f v).1.durable ≡ w.durable
    go w (ok a) v same e failed = (k a).at v e failed ∙ same
    go w (err x) v same e failed = same

module _ (settings : Settings) (env : Environment) where
  -- An agent that was created is in the tables as a draft, under an id that was not there.
  Enrolled : World → AgentIdentity → World → Type 0
  Enrolled w a v =
      (find_agent a.id w.db ≡ none) × (a.status ≡ draft) × (v.db.agents ≡ w.db.agents ++ a ∷ [])

  admin-same :
      (key : Option String) (w : World) → Ensures (Agents.admin settings env key w) (λ _ v. v ≡ w)
  unfolding Agents.admin require_admin require_admin_header
  admin-same key w =
      Ensures-raise_if Q (get_or key "" == "") _ _ w λ _. Ensures-last_raise_if Q _ _ w λ _. refl
    where
      Q : Unit {0} → World → Type 0
      Q _ v = v ≡ w

  create-Enrolled :
      (a : AgentIdentity) (w : World) → a.status ≡ draft → Ensures (Agents.create a w) (Enrolled w)
  unfolding Agents.create add_agent Enrolled
  create-Enrolled a w new =
      Ensures-bind Q (Enrolled w) (add_agent a) _ w
        (Ensures-refused_if Q _ database_error w _ λ free. λ _ _. (ground (arith, free), refl))
        λ _ (free, added).
          let v = (add_agent a w).1 in
          Ensures-ok (Enrolled w) a (record v { durable = v.db }) (free, new, added)
    where
      Q : Unit {0} → World → Type 0
      Q _ v = (find_agent a.id w.db ≡ none) × (v.db.agents ≡ w.db.agents ++ a ∷ [])

  create_agent-Enrolled :
      (key : Option String) (body : AgentCreate) (w : World)
      → Ensures (create_agent settings env key body w) (Enrolled w)
  unfolding create_agent Agents.create Enrolled
  create_agent-Enrolled key body w =
      Ensures-bind (λ _ v. v ≡ w) R (Agents.admin settings env key) _ w (admin-same key w)
        λ _ same.
          subst (λ v. Ensures (past_admin v) R) (sym same)
            (Ensures-raise_if R (not (has_length 256 body.owner_id)) _ _ w λ _.
              Ensures-or_raise R (find_blueprint body.blueprint_id w.db) _ _ w λ blueprint _.
                Ensures-raise_if R (not (is_blueprint_active blueprint.status)) _ _ w
                  λ _. create-Enrolled (row blueprint w) (record w { draws = w.draws + 1 }) refl)
    where
      R : AgentIdentity → World → Type 0
      R = Enrolled w

      row : AgentBlueprint → World → AgentIdentity
      row blueprint v = record {
        id = env.uuid v.draws;
        principal_uri =
            Agents.build_principal_uri settings env key (env.uuid v.draws) blueprint.slug;
        blueprint_id = body.blueprint_id;
        owner_id = body.owner_id;
        sponsor_id = body.sponsor_id;
        status = draft;
        public_key = body.public_key;
        metadata = body.metadata;
        activated_at = none;
        suspended_at = none;
        revoked_at = none;
      }

      past_admin : Exec World AgentIdentity
      past_admin = do
        raise_if (not (has_length 256 body.owner_id)) (http 422 (text "owner_id"))
        found ← get find_blueprint body.blueprint_id
        blueprint ← or_raise found (http 404 (text "Blueprint not found"))
        raise_if (not (is_blueprint_active blueprint.status))
            (http 400 (text "Blueprint must be active"))
        λ v. Agents.create (row blueprint v) (record v { draws = v.draws + 1 })

  add_agent-Uncommitted : (a : AgentIdentity) → Uncommitted (add_agent a)
  unfolding add_agent
  add_agent-Uncommitted a = record { at = λ w. ground arith }

  create-Refuses : (a : AgentIdentity) → Refuses (Agents.create a)
  unfolding Agents.create
  create-Refuses a =
      Refuses-bind (add_agent a) _ (add_agent-Uncommitted a)
        λ _. record { at = λ w e failed. absurd (cc failed) }

  create_agent-Refuses :
      (key : Option String) (body : AgentCreate) → Refuses (create_agent settings env key body)
  unfolding create_agent Agents.admin require_admin require_admin_header
  create_agent-Refuses key body = search (Refuses-bind, create-Refuses, uncommitted_rules) depth 24

  -- In a committed answer the new agent shows, else the tables are rolled back.
  pub create-respond :
      (key : Option String) (body : AgentCreate) (w : World)
      → statuses (state_after (create_agent settings env key body) w).durable
        ≡ entered (with_db (create_agent settings env key body) w).0 (statuses w.durable)
  unfolding with_db Enrolled
  create-respond key body w =
      let start = record w { db = w.durable } in
      let p = create_agent settings env key body start in
      go p.0 p.1 (create_agent-Enrolled key body start) ((create_agent-Refuses key body).at start)
    where
      go :
          (r : Result AgentIdentity) (v : World)
          → Ensures (r, v) (Enrolled (record w { db = w.durable }))
          → ((e : Error) → r ≡ err e → v.durable ≡ w.durable)
          → statuses (finish (r, v)).1.durable ≡ entered (finish (r, v)).0 (statuses w.durable)
      go (ok a) v known failed =
          let (free, new, added) = known a refl in
          ap (λ rows id. status_of (find (λ r. r.id) id rows)) added
          ∙ enrolled_shows w.durable a free new
      go (err e) v known failed = ap statuses (failed e refl)
