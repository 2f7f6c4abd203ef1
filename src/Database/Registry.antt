-- ===== src/Database/Registry.antt =====
-- What the agents API promises of its agents, without tables: a registry of statuses, in which an
-- agent enters as a draft and then moves along the life cycle, one agent at a time.
use agent_identity_lab.Prelude.{
  ℕ, ◌≡◌, ◌≢◌, refl, ap, Bool, sym, subst, fun_ext, Option, none, some, [], ◌∷◌, ◌++◌, arith,
  nat_eq, nat_eq_iff, if◌then◌else◌, Bool-cases, inl, inr, true, false,
}
use agent_identity_lab.Common.{AgentStatus, draft, pending_approval, active, suspended, revoked}
use agent_identity_lab.Models.{AgentIdentity}
use agent_identity_lab.Models.Table.{replace, find-append, find-replace, or_else, updated}
use agent_identity_lab.Database.{Db, find_agent}

-- The moves of an agent's status that the API makes.
pub data Transition : AgentStatus → AgentStatus → Type 0 where
  activate_draft : Transition draft active
  activate_pending : Transition pending_approval active
  activate_suspended : Transition AgentStatus.suspended active
  suspend : Transition active suspended
  revoke : (s : AgentStatus) → Transition s revoked

pub data Leads (s : AgentStatus) : AgentStatus → Type 0 where
  here : Leads s s
  next : {t u : AgentStatus} → Leads s t → Transition t u → Leads s u

pub Leads-trans : {s t u : AgentStatus} → Leads s t → Leads t u → Leads s u
Leads-trans h here = h
Leads-trans h (next k step) = next (Leads-trans h k) step

abbrev pub Registry : Type 0
Registry = ℕ → Option AgentStatus

abbrev pub set_status : ℕ → AgentStatus → Registry → Registry
set_status id s registry j = if nat_eq id j then some s else registry j

pub data Step (before after : Registry) : Type 0 where
  enroll : (id : ℕ) → before id ≡ none → after ≡ set_status id draft before → Step before after
  move :
      (id : ℕ) (s t : AgentStatus)
      → before id ≡ some s
      → Transition s t
      → after ≡ set_status id t before
      → Step before after

pub data Steps (before : Registry) : Registry → Type 0 where
  still : Steps before before
  and_step : {mid after : Registry} → Steps before mid → Step mid after → Steps before after

pub Steps-trans : {r s t : Registry} → Steps r s → Steps s t → Steps r t
Steps-trans h still = h
Steps-trans h (and_step k step) = and_step (Steps-trans h k) step

abbrev pub status_of : Option AgentIdentity → Option AgentStatus
status_of none = none
status_of (some a) = some a.status

-- The registry that the tables show.
abbrev pub statuses : Db → Registry
statuses d id = status_of (find_agent id d)

pub set_same :
    (id : ℕ) (s : AgentStatus) (registry : Registry)
    → registry id ≡ some s
    → set_status id s registry ≡ registry
set_same id s registry h = fun_ext λ j. elim (Bool-cases (nat_eq id j)) [
  | inl same ↦ rw same (sym (subst (λ k. registry k ≡ some s) ((nat_eq_iff id j).0 same) h))
  | inr other ↦ rw other refl
]

set_twice :
    (id : ℕ) (s t : AgentStatus) (registry : Registry)
    → set_status id t registry ≡ set_status id t (set_status id s registry)
set_twice id s t registry = fun_ext λ j. ground arith

Leads-Steps :
    (id : ℕ) (s t : AgentStatus) (registry : Registry)
    → registry id ≡ some s
    → Leads s t
    → Steps registry (set_status id t registry)
Leads-Steps id s t registry h here = subst (Steps registry) (sym (set_same id s registry h)) still
Leads-Steps id s t registry h (next {t = u} k step) =
    and_step (Leads-Steps id s u registry h k)
      (move id u t (ground arith) step (set_twice id u t registry))

shown_added :
    (o : Option AgentIdentity) (same : Bool) (a : AgentIdentity)
    → (same ≡ true → o ≡ none)
    → a.status ≡ draft
    → status_of (or_else o (if same then some a else none))
      ≡ (if same then some draft else status_of o)
shown_added none true a free new = ap some new
shown_added none false a free new = refl
shown_added (some p) true a free new = absurd (cc (free refl))
shown_added (some p) false a free new = refl

shown_updated :
    (o : Option AgentIdentity) (j : ℕ) (a : AgentIdentity)
    → (nat_eq a.id j ≡ true → o ≢ none)
    → (if nat_eq a.id j then some a.status else status_of o) ≡ status_of (updated (λ r. r.id) j a o)
shown_updated none j a there = elim (Bool-cases (nat_eq a.id j)) [
  | inl same ↦ absurd (there same refl)
  | inr other ↦ rw other refl
]
shown_updated (some p) j a there = ground arith

module _ (d : Db) where
  pub enrolled_shows :
      (a : AgentIdentity)
      → find_agent a.id d ≡ none
      → a.status ≡ draft
      → statuses (record d { agents = d.agents ++ a ∷ [] }) ≡ set_status a.id draft (statuses d)
  enrolled_shows a free new = fun_ext λ j. rw (find-append (λ r. r.id) j a d.agents) (
      shown_added (find_agent j d) (nat_eq a.id j) a
        (λ same. subst (λ k. find_agent k d ≡ none) ((nat_eq_iff a.id j).0 same) free) new)

  pub enrolled :
      (a : AgentIdentity)
      → find_agent a.id d ≡ none
      → a.status ≡ draft
      → Steps (statuses d) (statuses (record d { agents = d.agents ++ a ∷ [] }))
  enrolled a free new = and_step still (enroll a.id (rw free refl) (enrolled_shows a free new))

  pub shown_replaced :
      (a q : AgentIdentity)
      → find_agent a.id d ≡ some q
      → set_status a.id a.status (statuses d)
        ≡ statuses (record d { agents = replace (λ r. r.id) a d.agents })
  shown_replaced a q found = fun_ext λ j. rw (find-replace (λ r. r.id) j a d.agents) (
      shown_updated (find_agent j d) j a λ same gone.
        cc (gone, subst (λ k. find_agent k d ≡ some q) ((nat_eq_iff a.id j).0 same) found))

  pub moved_along :
      (a q : AgentIdentity)
      → find_agent a.id d ≡ some q
      → Leads q.status a.status
      → Steps (statuses d) (statuses (record d { agents = replace (λ r. r.id) a d.agents }))
  moved_along a q found leads =
      subst (Steps (statuses d)) (shown_replaced a q found)
        (Leads-Steps a.id q.status a.status (statuses d) (rw found refl) leads)
