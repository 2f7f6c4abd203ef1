-- ===== src/Database.antt =====
-- The database behind a request, with what else lives as long as a process: the nonces that the
-- verifier has seen. The clock and the random UUIDs are parameters, read one after the other.
pub mod Transaction
pub mod Integrity
pub mod Registry
pub mod Evolution
pub mod Changes
pub mod Writes
use agent_identity_lab.Prelude.{
  ℕ, ◌+◌, String, Bool, true, false, not, ◌||◌, ◌==◌, Option, none, some, List, [], ◌∷◌, ◌++◌,
  nat_eq, leb, any, is_some, contains, ◌&&◌, if◌then◌else◌,
}
use Prim.Native.String.{len}
use agent_identity_lab.Models.{
  AgentBlueprint, AgentIdentity, RuntimeAttestation, DelegationGrant, AgentSession, CredentialLease,
  AuditEvent,
}
use agent_identity_lab.Models.Table.{find, replace}
use agent_identity_lab.Attestation.{Nonce}
use agent_identity_lab.Exec.{
  Error, database_error, Result, ok, err, Exec, pure, raise, raise_if, gets, modify, ◌>>=◌, ◌>>◌,
}

pub record Db : Type 0 where
  pub blueprints : List AgentBlueprint
  pub agents : List AgentIdentity
  pub attestations : List RuntimeAttestation
  pub delegations : List DelegationGrant
  pub sessions : List AgentSession
  pub leases : List CredentialLease
  pub events : List AuditEvent

pub record World : Type 0 where
  -- what the request's transaction sees, and what is committed
  pub db : Db
  pub durable : Db
  -- `AttestationVerifier.NONCE_SEEN`
  pub nonces : List Nonce
  -- how many times and UUIDs have been drawn
  pub draws : ℕ

-- What the clock shows at a draw, in microseconds since the year 1, the UUID of a draw, and the
-- text of a UUID.
pub record Environment : Type 0 where
  pub time : ℕ → ℕ
  pub uuid : ℕ → ℕ
  -- `str(id)`, `id.hex` and `uuid.UUID(text)`, `none` where it raises `ValueError`
  pub uuid_str : ℕ → String
  pub uuid_hex : ℕ → String
  pub parse_uuid : String → Option ℕ

-- `datetime.now(UTC)` and `uuid.uuid4()`
abbrev pub now : Environment → Exec World ℕ
now env w = (ok (env.time w.draws), record w { draws = w.draws + 1 })

abbrev pub new_uuid : Environment → Exec World ℕ
new_uuid env w = (ok (env.uuid w.draws), record w { draws = w.draws + 1 })

abbrev pub find_blueprint : ℕ → Db → Option AgentBlueprint
find_blueprint id db = find (λ r. r.id) id db.blueprints

abbrev pub find_agent : ℕ → Db → Option AgentIdentity
find_agent id db = find (λ r. r.id) id db.agents

abbrev pub find_attestation : ℕ → Db → Option RuntimeAttestation
find_attestation id db = find (λ r. r.id) id db.attestations

abbrev pub find_delegation : ℕ → Db → Option DelegationGrant
find_delegation id db = find (λ r. r.id) id db.delegations

abbrev pub find_session : ℕ → Db → Option AgentSession
find_session id db = find (λ r. r.id) id db.sessions

-- `session.get(Model, id)`
abbrev pub get : {R : Type 0} → (ℕ → Db → Option R) → ℕ → Exec World (Option R)
get look id w = (ok (look id w.db), w)

-- `session.commit()`
abbrev pub commit : Exec World (Unit {0})
commit w = (ok tt, record w { durable = w.db })

abbrev pub write : (Db → Db) → Exec World (Unit {0})
write f w = (ok tt, record w { db = f w.db })

-- `String(limit)`: PostgreSQL refuses a longer text, and one with a NUL, which JSON columns refuse
-- too.
abbrev pub nul : String
nul = "\0"

unfoldable pub fits : ℕ → String → Bool
fits limit s = leb (len s) limit && not (contains nul s)

abbrev pub fits_opt : ℕ → Option String → Bool
fits_opt limit none = true
fits_opt limit (some s) = fits limit s

unfoldable pub fits_json : List String → Bool
fits_json scopes = not (any (λ s. contains nul s) scopes)

-- The texts of an attestation.
unfoldable pub attestation_fits : RuntimeAttestation → Bool
attestation_fits a =
    fits 256 a.container_digest
    && fits 64 a.git_commit
    && fits 64 a.environment
    && fits 256 a.host_id
    && fits 64 a.framework
    && fits 32 a.framework_version
    && fits 128 a.model_id
    && fits 64 a.prompt_version
    && fits 128 a.nonce
    && fits 4096 a.signature

-- The texts of a session that come from its request; those of the service are short.
unfoldable pub session_fits : Option String → String → String → List String → Bool
session_fits acting_user_id model_id prompt_version scopes =
    fits_opt 256 acting_user_id && fits 128 model_id && fits 64 prompt_version && fits_json scopes

unfoldable pub blueprint_fits : AgentBlueprint → Bool
blueprint_fits b = fits 128 b.slug && fits 256 b.name

unfoldable pub agent_fits : AgentIdentity → Bool
agent_fits a =
    fits 512 a.principal_uri
    && fits 256 a.owner_id
    && fits_opt 256 a.sponsor_id
    && fits_opt 4096 a.public_key

unfoldable pub delegation_fits : DelegationGrant → Bool
delegation_fits d = fits 256 d.user_id && fits_json d.scopes

unfoldable pub lease_fits : CredentialLease → Bool
lease_fits l = fits 128 l.tool_id && fits 64 l.provider && fits_json l.scopes

-- Rows that a flush writes, under the constraints that the tables declare: primary keys, unique
-- columns, foreign keys, and the widths of texts.
unfoldable pub add_blueprint : AgentBlueprint → Exec World (Unit {0})
add_blueprint b w =
    if not (blueprint_fits b)
      || is_some (find_blueprint b.id w.db)
      || any (λ q. q.slug == b.slug) w.db.blueprints
    then (err database_error, w)
    else write (λ db. record db { blueprints = db.blueprints ++ b ∷ [] }) w

unfoldable pub add_agent : AgentIdentity → Exec World (Unit {0})
add_agent a w =
    if not (agent_fits a)
      || is_some (find_agent a.id w.db)
      || any (λ q. q.principal_uri == a.principal_uri) w.db.agents
      || not (is_some (find_blueprint a.blueprint_id w.db))
    then (err database_error, w)
    else write (λ db. record db { agents = db.agents ++ a ∷ [] }) w

unfoldable pub add_attestation : RuntimeAttestation → Exec World (Unit {0})
add_attestation a w =
    if not (attestation_fits a)
      || is_some (find_attestation a.id w.db)
      || any (λ q. q.nonce == a.nonce) w.db.attestations
      || not (is_some (find_agent a.agent_id w.db))
    then (err database_error, w)
    else write (λ db. record db { attestations = db.attestations ++ a ∷ [] }) w

unfoldable pub add_delegation : DelegationGrant → Exec World (Unit {0})
add_delegation d w =
    if not (delegation_fits d)
      || is_some (find_delegation d.id w.db)
      || not (is_some (find_agent d.agent_id w.db))
    then (err database_error, w)
    else write (λ db. record db { delegations = db.delegations ++ d ∷ [] }) w

-- A nullable foreign key
abbrev pub refers : Option ℕ → Db → Bool
refers none db = true
refers (some id) db = is_some (find_delegation id db)

unfoldable pub add_session : AgentSession → Exec World (Unit {0})
add_session s w =
    if not (session_fits s.acting_user_id s.model_id s.prompt_version s.requested_scopes)
      || is_some (find_session s.id w.db)
      || not (is_some (find_agent s.agent_id w.db))
      || not (refers s.delegation_grant_id w.db)
      || not (is_some (find_attestation s.runtime_attestation_id w.db))
    then (err database_error, w)
    else write (λ db. record db { sessions = db.sessions ++ s ∷ [] }) w

unfoldable pub add_lease : CredentialLease → Exec World (Unit {0})
add_lease l w =
    if not (lease_fits l)
      || is_some (find (λ r. r.id) l.id w.db.leases)
      || not (is_some (find_session l.session_id w.db))
    then (err database_error, w)
    else write (λ db. record db { leases = db.leases ++ l ∷ [] }) w

-- A row that was changed in place, at the next commit.
unfoldable pub save_blueprint : AgentBlueprint → Exec World (Unit {0})
save_blueprint b = write (λ db. record db { blueprints = replace (λ r. r.id) b db.blueprints })

unfoldable pub save_agent : AgentIdentity → Exec World (Unit {0})
save_agent a = write (λ db. record db { agents = replace (λ r. r.id) a db.agents })

unfoldable pub save_delegation : DelegationGrant → Exec World (Unit {0})
save_delegation d = write (λ db. record db { delegations = replace (λ r. r.id) d db.delegations })

unfoldable pub save_session : AgentSession → Exec World (Unit {0})
save_session s = write (λ db. record db { sessions = replace (λ r. r.id) s db.sessions })
