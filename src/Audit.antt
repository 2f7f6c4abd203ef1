-- ===== src/Audit.antt =====
-- packages/audit: the hash chain (chain.py) and the writer (writer.py). SHA-256, JSON text and
-- ISO dates are parameters.
pub mod Chained
pub mod Writing
pub mod Tampering
pub mod Api
mod Tests
use agent_identity_lab.Prelude.{
  ℕ, ◌+◌, String, Bool, true, false, not, ◌||◌, ◌==◌, Option, none, some, List, [], ◌∷◌, ◌++◌,
  if◌then◌else◌, get_or, is_some, any, leb, put, ◌+s◌,
}
use agent_identity_lab.Json.{Dict, str}
use agent_identity_lab.Exec.{Error, database_error, Result, ok, err, Exec, pure, gets, ◌>>=◌, ◌>>◌}
use agent_identity_lab.Models.{AuditEvent}
use agent_identity_lab.Models.Table.{find}
use agent_identity_lab.Database.{Db, World, Environment, now, new_uuid, commit, write}

pub record Hashing : Type 0 where
  -- `json.dumps(data, sort_keys=True, separators=(",", ":"), default=str)`
  pub canonical : Dict → String
  -- `hashlib.sha256(text.encode("utf-8")).hexdigest()`
  pub sha256 : String → String
  -- `timestamp.isoformat()`
  pub isoformat : ℕ → String

-- The equality test of `previous_hash != prev`, where both may be None.
abbrev pub same_hash : Option String → Option String → Bool
same_hash none none = true
same_hash (some s) (some t) = s == t
same_hash a b = false

-- The dict that `verify_chain` returns.
pub data ChainReport : Type 0 where
  valid : ChainReport
  wrong_previous : (broken_at : ℕ) (expected_previous got_previous : Option String) → ChainReport
  wrong_hash : (broken_at : ℕ) (expected got : String) → ChainReport

module _ (h : Hashing) where
  unfoldable pub compute_hash : Dict → Option String → String
  compute_hash event_data previous_hash =
      h.sha256 (get_or previous_hash "" +s h.canonical event_data)

  -- The loop, from an index and the hash of the event before it.
  unfoldable pub verify_from : ℕ → Option String → List AuditEvent → ChainReport
  verify_from index prev [] = valid
  verify_from index prev (event ∷ events) =
      let rest = verify_from (index + 1) (some event.record_hash) events in
      if not (same_hash event.previous_hash prev)
      then wrong_previous index prev event.previous_hash
      else if not (event.record_hash == compute_hash event.payload prev)
      then wrong_hash index (compute_hash event.payload prev) event.record_hash
      else rest

  unfoldable pub verify_chain : List AuditEvent → ChainReport
  verify_chain events = verify_from 0 none events

-- `order_by(AuditEvent.timestamp)`; events of one time stay in the order of the table, which SQL
-- leaves open.
unfoldable pub insert_event : AuditEvent → List AuditEvent → List AuditEvent
insert_event e [] = e ∷ []
insert_event e (f ∷ fs) =
    let rest = insert_event e fs in if leb f.timestamp e.timestamp then f ∷ rest else e ∷ f ∷ fs

unfoldable pub order_from : List AuditEvent → List AuditEvent → List AuditEvent
order_from sorted [] = sorted
order_from sorted (e ∷ es) = order_from (insert_event e sorted) es

abbrev pub by_timestamp : List AuditEvent → List AuditEvent
by_timestamp events = order_from [] events

-- The first of the descending order: the last of the ascending one.
unfoldable pub last_hash : Option String → List AuditEvent → Option String
last_hash prev [] = prev
last_hash prev (e ∷ es) = last_hash (some e.record_hash) es

-- The row that a flush writes; `id` and `record_hash` are unique.
unfoldable pub add_event : AuditEvent → Exec World (Unit {0})
add_event e w =
    if is_some (find (λ r. r.id) e.id w.db.events)
      || any (λ q. q.record_hash == e.record_hash) w.db.events
    then (err database_error, w)
    else write (λ db. record db { events = db.events ++ e ∷ [] }) w

-- The keyword arguments of `write`.
pub record EventDetails : Type 0 where
  pub agent_id : Option ℕ
  pub acting_user_id : Option String
  pub session_id : Option ℕ
  pub trace_id : Option String
  pub tool_id : Option String
  pub operation : Option String
  pub decision : Option String
  pub reason : Option String

module _ (h : Hashing) (env : Environment) where
  -- `{**data, "event_type": event_type, "timestamp": ...}`
  abbrev pub payload_of : String → Dict → ℕ → Dict
  payload_of event_type data_ timestamp =
      put "timestamp" (str (h.isoformat timestamp)) (put "event_type" (str event_type) data_)

  unfoldable pub event_row : (id t : ℕ) → String → Dict → EventDetails → Option String → AuditEvent
  event_row id t event_type data_ details previous_hash = record {
    id = id;
    event_type = event_type;
    timestamp = t;
    agent_id = details.agent_id;
    acting_user_id = details.acting_user_id;
    session_id = details.session_id;
    trace_id = details.trace_id;
    tool_id = details.tool_id;
    operation = details.operation;
    decision = details.decision;
    reason = details.reason;
    payload = payload_of event_type data_ t;
    previous_hash = previous_hash;
    record_hash = compute_hash h (payload_of event_type data_ t) previous_hash;
  }

  -- `AuditWriter.write`
  unfoldable pub write_event : String → Dict → EventDetails → Exec World AuditEvent
  write_event event_type data_ details = do
    previous_hash ← gets (λ w. last_hash none (by_timestamp w.db.events))
    timestamp ← now env
    id ← new_uuid env
    let event = event_row id timestamp event_type data_ details previous_hash
    add_event event
    commit
    pure event
