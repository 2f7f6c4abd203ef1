-- ===== src/Audit/Api/Listing.antt =====
-- What the list of events contains.
use agent_identity_lab.Prelude.{ℕ, ◌≤◌, String, ◌≡◌, true, Option, List, All, length}
use agent_identity_lab.Prelude.Int.{ℤ, pos}
use agent_identity_lab.Models.{AuditEvent}
use agent_identity_lab.Audit.Api.{passes}

-- The properties of the list, for the limit that was given.
pub record IsListed (trace_id decision : Option String) (limit : ℤ) (events : List AuditEvent)
    : Type 0 where
  pub count : ℕ
  pub given : limit ≡ pos count
  pub bounded : count ≤ 200
  pub short : length events ≤ count
  pub traced : All (λ e. passes trace_id e.trace_id ≡ true) events
  pub decided : All (λ e. passes decision e.decision ≡ true) events
