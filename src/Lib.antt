-- ===== src/Lib.antt =====
-- Agent Identity Lab: a control plane that gives AI agents identities, sessions, policy decisions
-- and downstream credentials.
--
-- How the parts interact. An administrator registers blueprints, agents and delegations with the
-- Identity API. An agent opens a session there with a signed runtime attestation and gets a session
-- token. It sends its tool requests with this token to the MCP gateway, which asks the Identity API
-- to authorize each and forwards what is allowed to the MCP server. The token broker exchanges a
-- session for a downstream credential. The audit package keeps a chain of hashed events.
--
-- Parts and files.
--   Prelude         tests, lists, Python's str, int, dict and set of str (with sorted), over native
--                   numbers
--   Json, Common    JSON values; packages/common/enums.py, the settings and the messages of errors
--   Exec            exceptions over a state, the state kept beside an error (Exec.Keeps: relations
--                   that actions respect; Exec.Ensures: what holds when an action has returned)
--   Policy          packages/policy_client: PolicyInput, PolicyOutput
--   Policy.Python   packages/policy_client/python_adapter.py (evaluate)
--   Policy.Opa      packages/policy_client/opa_adapter.py, apps/identity_api/services/policy_service.py
--                   and get_policy_adapter of apps/identity_api/api/authorization.py
--   Policy.Tools    TOOL_SCOPE_MAP of the Python adapter and apps/mcp_gateway/tool_registry/registry.py
--   Attestation     packages/attestation/verifier.py (verify, sign_attestation)
--   Tokens          packages/token_library (keys.py, issuer.py, validator.py)
--   Models          the tables: packages/identity_models, attestation/models.py, audit/models.py
--   Database        the ORM's session on these tables, get_db of apps/identity_api/dependencies.py
--                   (Database.Transaction), how rows may change (Database.Changes and Evolution), the
--                   constraints of the tables (Database.Integrity) and the registry of statuses with
--                   its steps, the abstract view of the agents (Database.Registry)
--   Identity        apps/identity_api: Agents (api/agents.py, repositories/agent_repo.py), Blueprints
--                   (api/blueprints.py, repositories/blueprint_repo.py), Delegations
--                   (api/delegations.py), Sessions (api/sessions.py, services/session_service.py),
--                   Authorization (api/authorization.py; Authorization.Asked: what the policy is to be
--                   asked and the client to be told), Requests (a run of requests;
--                   Requests.Registry: what a request is to do to the registry of statuses)
--   Audit           packages/audit (chain.py, writer.py); Audit.Api: api/audit.py of the Identity API
--   Broker          apps/token_broker
--   Gateway         apps/mcp_gateway (middleware/auth.py, proxy/forwarder.py, main.py)
--   MockServer      apps/mock_mcp_server/main.py
--   System          the gateway in front of the Identity API
--   Client          packages/common/client.py, against the Identity API
--   Examples        examples/_support.py; Examples.Demos: the six demonstrations
--
-- State. A World has the tables as the running transaction sees them, the committed tables, the
-- verifier's set of nonces (one per process) and how often the clock and the UUIDs were drawn; the
-- clock and the UUIDs are functions of that count, so every run is a function of its input.
-- Requests are served one after the other; concurrent transactions are not modelled.
--
-- Parameters. The Open Policy Agent (Policy.Opa.Opa), cryptography, JSON text and ISO dates
-- (Attestation.Primitives, Audit.Hashing), PyJWT and the key files (Tokens.Jwt), the clock and UUIDs
-- (Database.Environment), HTTP to the Identity API and to the MCP server (Gateway.Network), the key
-- pairs and dates of a client's machine (Client.Machine). What PyJWT and the signature library document
-- of keys is a hypothesis where a theorem needs it.
--
-- Conventions and limits. A dictionary that one function builds and another reads is a record of
-- optional keys. Python's set of strings is a list without repetitions; the order in which a set is
-- walked never shows, since every set is sorted or tested for membership and emptiness only. Times
-- are microseconds since the year 1, UUIDs are numbers. The loops are recursions on lists, so no
-- fuel is needed. Left out: floats in JSON; the columns created_at and updated_at; explicit nulls
-- for non-nullable fields in a blueprint update; dates so early that a negative time to live would
-- lead before the year 1; the text of exceptions of libraries; the widths of columns where a row is
-- changed in place (rotate-key, the update of a blueprint) and for audit events; NUL in JSON columns
-- other than lists of scopes. A session token with a scope that is no text, which the issuer never
-- writes, raises in the model; the source passes it on. The order of audit events of one time
-- is the order of the table, which SQL leaves open. What is printed, logged or closed is left out.
--
-- Not modelled: CORS, health routes, the set-up scripts and the Rego policies (the policy agent is a
-- parameter).
pub mod Prelude
pub mod Common
pub mod Exec
pub mod Json
pub mod Policy
pub mod Attestation
pub mod Models
pub mod Tokens
pub mod Database
pub mod Identity
pub mod Audit
pub mod Broker
pub mod Gateway
pub mod MockServer
pub mod System
pub mod Client
pub mod Examples
