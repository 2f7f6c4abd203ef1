-- ===== src/Audit/Tampering.antt =====
-- Two chains that end in one hash hold the same payloads, or show a collision of SHA-256.
use agent_identity_lab.Prelude.{String, ◌≡◌, ◌≢◌, List, map}
use agent_identity_lab.Models.{AuditEvent}
use agent_identity_lab.Audit.{Hashing}

-- Two texts with one hash.
pub record Collision (h : Hashing) : Type 0 where
  pub first : String
  pub second : String
  pub different : first ≢ second
  pub collide : h.sha256 first ≡ h.sha256 second

abbrev pub canonical_of : Hashing → List AuditEvent → List String
canonical_of h es = map (λ e. h.canonical e.payload) es
