-- ===== src/Identity/Requests/Moves.antt =====
-- What the routes of one agent do to the registry of statuses.
use agent_identity_lab.Prelude.{
  ℕ, String, ◌≡◌, refl, sym, ap, ◌∙◌, inl, inr, Bool, true, false, ◌&&◌, ◌==◌, Option, none, some,
  get_or, if◌then◌else◌, Bool-cases, Option-cases,
}
use agent_identity_lab.Common.{Settings, AgentStatus, active, suspended, revoked}
use agent_identity_lab.Exec.{Exec, ◌>>=◌}
use agent_identity_lab.Models.{AgentIdentity}
use agent_identity_lab.Models.Table.{find, replace, find-key}
use agent_identity_lab.Database.{World, Db, Environment, find_agent, save_agent}
use agent_identity_lab.Database.Transaction.{with_db}
use agent_identity_lab.Database.Registry.{
  Registry, set_status, statuses, status_of, shown_replaced, set_same,
}
use agent_identity_lab.Identity.{StatusReply, require_admin, require_admin_header}
use agent_identity_lab.Identity.Agents
use agent_identity_lab.Identity.Agents.{
  AgentCreate, can_activate, is_agent_active, is_blueprint_active, create_agent, activate_agent,
  suspend_agent, revoke_agent, rotate_key, existing_agent,
}
use agent_identity_lab.Identity.Requests.{state_after}
use agent_identity_lab.Identity.Requests.Registry.{
  is_admin, holds_of, move_if, may_activate, may_suspend,
}

-- The code's guards are those of the life cycle.
can_activate-may : (s : AgentStatus) → can_activate s ≡ may_activate s
can_activate-may AgentStatus.draft = refl
can_activate-may AgentStatus.pending_approval = refl
can_activate-may AgentStatus.active = refl
can_activate-may AgentStatus.suspended = refl
can_activate-may AgentStatus.revoked = refl
can_activate-may AgentStatus.decommissioned = refl

is_agent_active-may : (s : AgentStatus) → is_agent_active s ≡ may_suspend s
is_agent_active-may AgentStatus.draft = refl
is_agent_active-may AgentStatus.pending_approval = refl
is_agent_active-may AgentStatus.active = refl
is_agent_active-may AgentStatus.suspended = refl
is_agent_active-may AgentStatus.revoked = refl
is_agent_active-may AgentStatus.decommissioned = refl

module _ (settings : Settings) (env : Environment) where
  -- A row that is written back.
  moved :
      (d : Db) (id : ℕ) (a b : AgentIdentity) (s : AgentStatus)
      → find_agent id d ≡ some a
      → b.id ≡ a.id
      → b.status ≡ s
      → statuses (record d { agents = replace (λ r. r.id) b d.agents })
        ≡ set_status id s (statuses d)
  moved d id a b s found same is_s =
      let same_id : b.id ≡ id = same ∙ find-key (λ r. r.id) id a d.agents found in
      sym (shown_replaced d b a (rw same_id found))
      ∙ (ap (λ t. set_status b.id t (statuses d)) is_s
          ∙ ap (λ k. set_status k s (statuses d)) same_id)

  -- A route on one agent: without the key or the agent nothing changes, else its last step counts.
  on_agent :
      (key : Option String) (id : ℕ) (w : World) (step : AgentIdentity → Exec World StatusReply)
      (after : Registry)
      → (is_admin settings key ≡ false → statuses w.durable ≡ after)
      → (find_agent id w.durable ≡ none → statuses w.durable ≡ after)
      → ((a : AgentIdentity)
          → is_admin settings key ≡ true
          → find_agent id w.durable ≡ some a
          → statuses (state_after (step a) w).durable ≡ after)
      → statuses
          (state_after
            (Agents.admin settings env key >>= λ _. existing_agent id >>= step)
            w).durable
        ≡ after
  unfolding Agents.admin require_admin require_admin_header existing_agent with_db find
  on_agent key id w step after barred absent present = elim (Bool-cases (get_or key "" == "")) [
    | inl empty ↦ rw empty (barred (rw empty refl))
    | inr given ↦ elim (Bool-cases (get_or key "" == settings.admin_api_key)) [
      | inr wrong ↦ rw (given, wrong) (barred (rw (given, wrong) refl))
      | inl right ↦ elim (Option-cases (find_agent id w.durable)) [
        | inl missing ↦ rw (given, right, missing) (absent missing)
        | inr (a, found) ↦ rw (given, right, found) (present a (rw (given, right) refl) found)
      ]
    ]
  ]

  -- A route that moves an agent, by what its last step does.
  moves_agent :
      (key : Option String) (id : ℕ) (w : World) (step : AgentIdentity → Exec World StatusReply)
      (may : AgentStatus → Bool) (s : AgentStatus)
      → ((a : AgentIdentity)
          → find_agent id w.durable ≡ some a
          → may a.status ≡ true
          → statuses (state_after (step a) w).durable ≡ set_status id s (statuses w.durable))
      → ((a : AgentIdentity)
          → may a.status ≡ false
          → statuses (state_after (step a) w).durable ≡ statuses w.durable)
      → statuses
          (state_after
            (Agents.admin settings env key >>= λ _. existing_agent id >>= step)
            w).durable
        ≡ move_if (is_admin settings key) may id s (statuses w.durable)
  moves_agent key id w step may s moves stays =
      on_agent key id w step _ (λ barred. barred_move (is_admin settings key) barred)
        (λ missing.
          absent_move (is_admin settings key) (status_of (find_agent id w.durable))
            (rw missing refl))
        λ a right found. elim (Bool-cases (may a.status)) [
          | inl moving ↦
              moves a found moving
              ∙ sym (moving_move (is_admin settings key) _ a.status right (rw found refl) moving)
          | inr staying ↦
              stays a staying
              ∙ staying_move (is_admin settings key) _ a.status (rw found refl) staying
        ]
    where
      registry : Registry
      registry = statuses w.durable

      moved_to : Bool → Option AgentStatus → Registry
      moved_to b o = if b && holds_of may o then set_status id s registry else registry

      barred_move : (b : Bool) → b ≡ false → registry ≡ moved_to b (registry id)
      barred_move b h = rw h refl

      absent_move : (b : Bool) (o : Option AgentStatus) → o ≡ none → registry ≡ moved_to b o
      absent_move true o h = rw h refl
      absent_move false o h = refl

      moving_move :
          (b : Bool) (o : Option AgentStatus) (t : AgentStatus)
          → b ≡ true
          → o ≡ some t
          → may t ≡ true
          → moved_to b o ≡ set_status id s registry
      moving_move b o t right here h = rw (right, here, h) refl

      staying_move :
          (b : Bool) (o : Option AgentStatus) (t : AgentStatus)
          → o ≡ some t
          → may t ≡ false
          → registry ≡ moved_to b o
      staying_move true o t here h = rw (here, h) refl
      staying_move false o t here h = refl

  pub activate-respond :
      (key : Option String) (id : ℕ) (w : World)
      → statuses (state_after (activate_agent settings env key id) w).durable
        ≡ move_if (is_admin settings key) may_activate id active (statuses w.durable)
  unfolding activate_agent Agents.update save_agent with_db
  activate-respond key id w =
      moves_agent key id w _ may_activate active
        (λ a found may.
          rw (can_activate-may a.status, may) (moved w.durable id a _ active found refl refl))
        (λ a may_not. rw (can_activate-may a.status, may_not) refl)

  pub suspend-respond :
      (key : Option String) (id : ℕ) (w : World)
      → statuses (state_after (suspend_agent settings env key id) w).durable
        ≡ move_if (is_admin settings key) may_suspend id suspended (statuses w.durable)
  unfolding suspend_agent Agents.update save_agent with_db
  suspend-respond key id w =
      moves_agent key id w _ may_suspend suspended
        (λ a found may.
          rw (is_agent_active-may a.status, may) (moved w.durable id a _ suspended found refl refl))
        (λ a may_not. rw (is_agent_active-may a.status, may_not) refl)

  pub revoke-respond :
      (key : Option String) (id : ℕ) (w : World)
      → statuses (state_after (revoke_agent settings env key id) w).durable
        ≡ move_if (is_admin settings key) (λ s. true) id revoked (statuses w.durable)
  unfolding revoke_agent Agents.update save_agent with_db
  revoke-respond key id w =
      moves_agent key id w _ (λ s. true) revoked
        (λ a found may. moved w.durable id a _ revoked found refl refl)
        (λ a may_not. absurd (cc may_not))

  pub rotate-respond :
      (key : Option String) (id : ℕ) (pem : String) (w : World)
      → statuses (state_after (rotate_key settings env key id pem) w).durable ≡ statuses w.durable
  unfolding rotate_key Agents.update save_agent with_db
  rotate-respond key id pem w =
      on_agent key id w _ (statuses w.durable) (λ barred. refl) (λ missing. refl)
        λ a right found.
          moved w.durable id a _ a.status found refl refl
          ∙ set_same id a.status (statuses w.durable) (rw found refl)
