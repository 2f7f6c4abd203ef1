-- ===== src/Audit/Writing.antt =====
-- The writer extends a chain to a chain.
use agent_identity_lab.Prelude.{ℕ, ◌+◌, ◌≤◌, String, none, List, All}
use agent_identity_lab.Json.{Dict}
use agent_identity_lab.Exec.Ensures.{Ensures}
use agent_identity_lab.Models.{AuditEvent}
use agent_identity_lab.Database.{World, Environment}
use agent_identity_lab.Audit.{Hashing, by_timestamp, last_hash, EventDetails, event_row}

-- No event is later than `t`.
abbrev pub Until : ℕ → List AuditEvent → Type 0
Until t es = All (λ e. e.timestamp ≤ t) es

module _ (h : Hashing) (env : Environment) where
  abbrev next_row : String → Dict → EventDetails → World → AuditEvent
  next_row event_type fields details w =
      event_row h env (env.uuid (w.draws + 1)) (env.time w.draws) event_type fields details
        (last_hash none (by_timestamp w.db.events))
