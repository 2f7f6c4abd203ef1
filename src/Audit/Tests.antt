-- ===== src/Audit/Tests.antt =====
-- Chains of two events, and each theorem at one of them.
use agent_identity_lab.Prelude.{
  ℕ, ◌+◌, String, ◌≡◌, refl, ◌↔◌, Option, none, some, List, [], ◌∷◌, put, lookup, ◌==◌,
  if◌then◌else◌,
}
use agent_identity_lab.Json.{str}
use agent_identity_lab.Models.{AuditEvent}
use agent_identity_lab.Models.Table.{find}
use agent_identity_lab.Database.{Db, World, Environment}
use agent_identity_lab.Audit.{
  Hashing, valid, wrong_hash, wrong_previous, compute_hash, verify_from, verify_chain, insert_event,
  order_from, last_hash, add_event, EventDetails, event_row, write_event,
}
use agent_identity_lab.Audit.Api.{list_events, take_events, reversed}
use agent_identity_lab.Audit.Chained.{
  IsChain, IsBroken, broken_at, verify_chain_iff, verify_chain-IsBroken,
}

audit_code : Unit {0}
unfolding list_events take_events reversed write_event event_row add_event last_hash order_from
    insert_event verify_chain verify_from compute_hash broken_at put lookup find
audit_code = tt

-- Every text but one hashes to "bb".
abbrev h : Hashing
h = record {
  canonical = λ d. "doc";
  sha256 = λ s. if s == "doc" then "aa" else if s == "aadoc" then "ab" else "bb";
  isoformat = λ t. "2026-07-10T00:00:00+00:00";
}

abbrev details : EventDetails
details = record {
  agent_id = none;
  acting_user_id = none;
  session_id = none;
  trace_id = none;
  tool_id = none;
  operation = none;
  decision = none;
  reason = none;
}

abbrev event : ℕ → String → Option String → AuditEvent
event id hash previous = record {
  id = id;
  event_type = "session.created";
  timestamp = id;
  agent_id = none;
  acting_user_id = none;
  session_id = none;
  trace_id = none;
  tool_id = none;
  operation = none;
  decision = none;
  reason = none;
  payload = [];
  previous_hash = previous;
  record_hash = hash;
}

abbrev chain : List AuditEvent
chain = event 1 "aa" none ∷ event 2 "ab" (some "aa") ∷ []

abbrev tampered : List AuditEvent
tampered = event 1 "aa" none ∷ event 2 "cd" (some "aa") ∷ []

tampered_report :
    (verify_chain h tampered ≡ wrong_hash 1 "ab" "cd")
    × (verify_chain h (event 2 "ab" (some "aa") ∷ []) ≡ wrong_previous 0 none (some "aa"))
unfolding audit_code
tampered_report = (refl, refl)

verify_chain_iff_example : (verify_chain h chain ≡ valid) ↔ IsChain h none chain
verify_chain_iff_example = verify_chain_iff h chain

tampered_at : broken_at (verify_chain h tampered) ≡ some 1
unfolding audit_code
tampered_at = refl

verify_chain-IsBroken_example : IsBroken h 1 none tampered
verify_chain-IsBroken_example = verify_chain-IsBroken h tampered 1 tampered_at

abbrev empty_tables : Db
empty_tables = record {
  blueprints = [];
  agents = [];
  attestations = [];
  delegations = [];
  sessions = [];
  leases = [];
  events = chain;
}

abbrev world : World
world = record { db = empty_tables; durable = empty_tables; nonces = []; draws = 0 }

abbrev env : Environment
env = record {
  time = λ draws. 5 + draws;
  uuid = λ draws. 100 + draws;
  uuid_str = λ id. "id";
  uuid_hex = λ id. "id";
  parse_uuid = λ s. none;
}

abbrev third : AuditEvent
third = record (event 101 "bb" (some "ab")) {
  event_type = "session.revoked";
  timestamp = 5;
  payload =
      ("event_type", str "session.revoked") ∷ ("timestamp", str "2026-07-10T00:00:00+00:00") ∷ [];
}
