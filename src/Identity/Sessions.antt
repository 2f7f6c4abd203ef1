-- ===== src/Identity/Sessions.antt =====
-- services/session_service.py, and the request that api/sessions.py hands to it.
pub mod Api
pub mod Steps
pub mod Recorded
pub mod Opened
pub mod Issued
pub mod Guarantee
pub mod Failed
pub mod Completed
use agent_identity_lab.Prelude.{
  ℕ, ◌+◌, String, Bool, true, false, not, ◌&&◌, ◌||◌, ◌==◌, Option, none, some, List, [], ◌∷◌,
  nat_eq, ltb, get_or, is_some, lookup, pop, replace_z, nat_str, ◌+s◌, if◌then◌else◌,
}
use Prim.Native.String.{slice}
use agent_identity_lab.Prelude.Int.{ℤ, pos, leb_ℤ, min_ℤ, add_seconds}
use agent_identity_lab.Json.{Json, Dict, str, as_str, get as get_value}
use agent_identity_lab.Common.{
  Settings, AgentStatus, BlueprintStatus, VerificationResult, verified, Message, text, with_message,
  with_agent_status,
}
use agent_identity_lab.Exec.{
  Error, http, session_error, database_error, type_error, Result, ok, err, Exec, pure, raise,
  raise_if, or_raise, gets, lift, ◌>>=◌, ◌>>◌,
}
use agent_identity_lab.Models.{
  AgentIdentity, AgentBlueprint, RuntimeAttestation, AgentSession, DelegationGrant,
}
use agent_identity_lab.Attestation.{Primitives, Moment, invalid, naive, aware, Verdict, verify}
use agent_identity_lab.Tokens.{Jwt, issue_session_token}
use agent_identity_lab.Database.{
  World, Environment, now, new_uuid, get, commit, find_agent, find_blueprint, find_delegation,
  find_session, add_attestation, add_session, save_session,
}
use agent_identity_lab.Identity.{StatusReply}
use agent_identity_lab.Identity.Agents.{is_agent_active, is_blueprint_active}

-- The body of POST /v1/sessions.
pub record SessionCreateRequest : Type 0 where
  pub agent_id : ℕ
  pub acting_user_id : Option String
  pub delegation_grant_id : Option ℕ
  pub requested_scopes : List String
  pub requested_ttl_seconds : ℤ
  pub model_id : String
  pub prompt_version : String
  pub runtime_attestation : Dict

-- An agent that may open sessions: its row, its public key and its blueprint.
pub record Opener : Type 0 where
  pub agent : AgentIdentity
  pub public_key : String
  pub blueprint : AgentBlueprint

abbrev pub is_verified : VerificationResult → Bool
is_verified verified = true
is_verified _ = false

infixl 5 ◌>>=?◌
abbrev ◌>>=?◌ : {A B : Type 0} → Option A → (A → Option B) → Option B
none >>=? f = none
some a >>=? f = f a

-- A claim as the value of a text column; the database takes nothing else, and looks at its width
-- when the row is flushed.
abbrev pub column : String → Dict → Option String
column claim claims = as_str (get_value claim claims)

-- `attestation_data.get(claim, default)` as the value of a text column
abbrev pub column_or : String → Dict → String → Option String
column_or claim claims default = elim (lookup claim claims) [
  | none ↦ some default
  | some v ↦ as_str v
]

abbrev pub instant : Moment → Option ℕ
instant (aware t) = some t
instant invalid = none
instant naive = none

unfoldable pub issued_at_of : Primitives → Dict → Option ℕ
issued_at_of prims claims =
    column "issued_at" claims >>=? λ written. instant (prims.from_iso (replace_z written))

-- The row of a verified attestation; `none` where a claim is no text.
unfoldable pub attestation_row :
    Primitives
    → (id : ℕ) (body : SessionCreateRequest) (claims : Dict) (signature : Json) (verified_at : ℕ)
    → Option RuntimeAttestation
unfolding issued_at_of
attestation_row prims id body claims signature verified_at =
    column "container_digest" claims >>=? λ container_digest.
    column "git_commit" claims >>=? λ git_commit. column "environment" claims >>=? λ environment.
    column "host_id" claims >>=? λ host_id. column "framework" claims >>=? λ framework.
    column "framework_version" claims >>=? λ framework_version.
    column_or "model" claims body.model_id >>=? λ model_id.
    column_or "prompt_version" claims body.prompt_version >>=? λ prompt_version.
    column "nonce" claims >>=? λ nonce. as_str signature >>=? λ signed.
    issued_at_of prims claims >>=? λ issued_at. some (record {
      id = id;
      agent_id = body.agent_id;
      container_digest = container_digest;
      git_commit = git_commit;
      environment = environment;
      host_id = host_id;
      framework = framework;
      framework_version = framework_version;
      model_id = model_id;
      prompt_version = prompt_version;
      nonce = nonce;
      signature = signed;
      issued_at = issued_at;
      verified_at = some verified_at;
      verification_result = some verified;
    })

-- Lines 40 to 49: the agent and its blueprint must be active, and a key registered.
unfoldable pub opener : ℕ → Exec World Opener
opener agent_id = do
  found ← get find_agent agent_id
  agent ← or_raise found (session_error (text "Agent not found"))
  raise_if (not (is_agent_active agent.status))
      (session_error (with_agent_status "Agent is not active (status: {})" agent.status))
  raise_if (get_or agent.public_key "" == "")
      (session_error (text "Agent has no registered public key"))
  owned ← get find_blueprint agent.blueprint_id
  blueprint ← or_raise owned (session_error (text "Agent blueprint is not active"))
  raise_if (not (is_blueprint_active blueprint.status))
      (session_error (text "Agent blueprint is not active"))
  pure (record { agent = agent; public_key = get_or agent.public_key ""; blueprint = blueprint })

-- Lines 79 to 88: a delegation that is named exists, is neither revoked nor expired, and is for
-- this agent.
unfoldable pub check_grant : DelegationGrant → ℕ → ℕ → Exec World (Unit {0})
check_grant grant agent_id t = do
  raise_if (ltb grant.expires_at t) (session_error (text "Delegation grant has expired"))
  raise_if (not (nat_eq grant.agent_id agent_id))
      (session_error (text "Delegation grant does not match agent"))

unfoldable pub check_delegation : Environment → Option ℕ → ℕ → Exec World (Unit {0})
check_delegation env none agent_id = pure tt
check_delegation env (some grant_id) agent_id = do
  found ← get find_delegation grant_id
  grant ← or_raise found (session_error (text "Delegation grant not found"))
  raise_if (is_some grant.revoked_at) (session_error (text "Delegation grant has been revoked"))
  t ← now env
  check_grant grant agent_id t

module _ (settings : Settings) (env : Environment) (prims : Primitives) (jwt : Jwt) where
  -- The verifier, on the process's set of nonces.
  unfoldable pub verify_now : Dict → Json → String → ℕ → Exec World Verdict
  verify_now claims signature public_key agent_id w =
      let t = env.time w.draws in
      let (r, seen) = verify prims t claims signature public_key (env.uuid_str agent_id) w.nonces in
      (r, record w { nonces = seen; draws = w.draws + 1 })

  -- Lines 60 to 77: the row of a verified attestation is stored.
  unfoldable pub store_attestation :
      SessionCreateRequest → Dict → Json → Exec World RuntimeAttestation
  store_attestation body claims signature = do
    verified_at ← now env
    id ← new_uuid env
    row ← or_raise (attestation_row prims id body claims signature verified_at) type_error
    add_attestation row
    pure row

  -- Lines 51 to 77: the attestation is verified and stored.
  unfoldable pub attest :
      SessionCreateRequest → Dict → Json → Opener → Exec World RuntimeAttestation
  attest body claims signature who = do
    (result, reason) ← verify_now claims signature who.public_key body.agent_id
    raise_if (not (is_verified result))
        (session_error (with_message "Attestation rejected: {}" reason))
    store_attestation body claims signature

  -- `min(requested, settings, blueprint)`
  unfoldable pub ttl_of : ℤ → AgentBlueprint → ℤ
  ttl_of requested blueprint =
      min_ℤ (min_ℤ requested settings.session_max_ttl_seconds) blueprint.max_session_ttl_seconds

  unfoldable pub session_row :
      (id t hex : ℕ) → SessionCreateRequest → AgentBlueprint → RuntimeAttestation → AgentSession
  session_row id t hex body blueprint attestation = record {
    id = id;
    agent_id = body.agent_id;
    acting_user_id = body.acting_user_id;
    delegation_grant_id = body.delegation_grant_id;
    model_id = body.model_id;
    prompt_version = body.prompt_version;
    runtime_attestation_id = attestation.id;
    requested_scopes = body.requested_scopes;
    effective_scopes = body.requested_scopes;
    policy_version = "0.1.0";
    trace_id = "trace_" +s slice (env.uuid_hex hex) 0 16;
    issued_at = t;
    expires_at = add_seconds t (ttl_of body.requested_ttl_seconds blueprint);
    revoked_at = none;
  }

  -- Lines 115 to 120: the token of the stored session.
  unfoldable pub issue_now : AgentSession → AgentBlueprint → Exec World (AgentSession × String)
  issue_now session blueprint = do
    issued ← now env
    token ← lift (
        issue_session_token jwt settings env.uuid_str issued session
          (blueprint.slug +s ":v" +s nat_str blueprint.version))
    pure (session, token)

  -- Lines 90 to 120: the session is stored, and its token issued.
  unfoldable pub open_session :
      SessionCreateRequest
      → AgentBlueprint
      → RuntimeAttestation
      → Exec World (AgentSession × String)
  open_session body blueprint attestation = do
    t ← now env
    hex ← new_uuid env
    id ← new_uuid env
    let session = session_row id t hex body blueprint attestation
    add_session session
    issue_now session blueprint

  -- `SessionService.create_session`
  unfoldable pub service_create_session :
      SessionCreateRequest → Dict → Json → Exec World (AgentSession × String)
  service_create_session body claims signature = do
    who ← opener body.agent_id
    attestation ← attest body claims signature who
    check_delegation env body.delegation_grant_id body.agent_id
    open_session body who.blueprint attestation

module _ (env : Environment) where
  -- `SessionService.revoke_session`
  unfoldable pub service_revoke_session : ℕ → Exec World AgentSession
  service_revoke_session session_id = do
    found ← get find_session session_id
    session ← or_raise found (session_error (text "Session not found"))
    raise_if (is_some session.revoked_at) (session_error (text "Session already revoked"))
    t ← now env
    save_session (record session { revoked_at = some t })
    commit
    pure (record session { revoked_at = some t })
