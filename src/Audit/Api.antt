-- ===== src/Audit/Api.antt =====
-- apps/identity_api/api/audit.py: the routes that read the table of events.
pub mod Listing
use agent_identity_lab.Prelude.{
  ℕ, ◌-◌, String, Bool, true, false, not, ◌==◌, Option, none, some, List, [], ◌∷◌, keep, ltb, leb,
  get_or, if◌then◌else◌,
}
use agent_identity_lab.Prelude.Int.{ℤ, pos, negsuc, leb_ℤ}
use agent_identity_lab.Json.{Dict}
use agent_identity_lab.Common.{text}
use agent_identity_lab.Exec.{
  Error, http, type_error, Result, ok, err, Exec, pure, raise_if, or_raise, gets, lift, ◌>>=◌, ◌>>◌,
}
use agent_identity_lab.Models.{AuditEvent}
use agent_identity_lab.Models.Table.{find}
use agent_identity_lab.Database.{World, Db, get}
use agent_identity_lab.Audit.{Hashing, ChainReport, valid, verify_chain, by_timestamp}

unfoldable pub reversed : List AuditEvent → List AuditEvent → List AuditEvent
reversed acc [] = acc
reversed acc (e ∷ es) = reversed (e ∷ acc) es

-- `order_by(desc(AuditEvent.timestamp))`
abbrev pub latest_first : List AuditEvent → List AuditEvent
latest_first events = reversed [] (by_timestamp events)

-- A filter that is not given, or empty, lets every event through; a null column equals nothing.
abbrev pub column_is : Option String → Option String → Bool
column_is none wanted = false
column_is (some s) none = false
column_is (some s) (some t) = s == t

abbrev pub passes : Option String → Option String → Bool
passes wanted column = if get_or wanted "" == "" then true else column_is column wanted

unfoldable pub take_events : ℕ → List AuditEvent → List AuditEvent
take_events n [] = []
take_events n (e ∷ es) = let rest = take_events (n - 1) es in if leb n 0 then [] else e ∷ rest

-- `LIMIT`, which PostgreSQL refuses where it is negative.
abbrev pub limited : ℤ → List AuditEvent → Result (List AuditEvent)
limited (pos n) events = ok (take_events n events)
limited (negsuc n) events = err type_error

-- The rows that GET /v1/audit/events prints.
unfoldable pub list_events :
    (trace_id decision : Option String) (limit : ℤ) → Exec World (List AuditEvent)
list_events trace_id decision limit = do
  raise_if (not (leb_ℤ limit (pos 200))) (http 422 (text "limit"))
  events ← gets (λ w. latest_first w.db.events)
  lift (
      limited limit
        (keep (λ e. passes decision e.decision) (keep (λ e. passes trace_id e.trace_id) events)))

unfoldable pub get_event : ℕ → Exec World AuditEvent
get_event id = do
  found ← get (λ i db. find (λ r. r.id) i db.events) id
  or_raise found (http 404 (text "Audit event not found"))

-- POST /v1/audit/verify-chain; an empty table is valid too, with another message.
unfoldable pub verify : Hashing → Exec World ChainReport
verify h = gets (λ w. verify_chain h (by_timestamp w.db.events))
