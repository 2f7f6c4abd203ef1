-- ===== src/Examples/Demos.antt =====
-- The demonstrations in examples: each runs against the services and asserts what it shows. What
-- they print is left out, and closing the client at their ends does nothing here.
use package.text.Mathlib.Text.{starts_with}
use agent_identity_lab.Prelude.{
  String, Bool, true, false, not, Option, none, some, List, [], ◌∷◌, nat_eq, is_some, contains,
  if◌then◌else◌,
}
use agent_identity_lab.Common.{Settings, PolicyDecision, allow, deny}
use agent_identity_lab.Exec.{http, assertion_error, Result, ok, err, Exec, raise_if, ◌>>=◌, ◌>>◌}
use agent_identity_lab.Attestation.{Primitives}
use agent_identity_lab.Tokens.{Jwt}
use agent_identity_lab.Policy.Opa.{Opa}
use agent_identity_lab.Database.{World, Environment}
use agent_identity_lab.Identity.Sessions.Api.{SessionResponse}
use agent_identity_lab.Client.{Machine, default_arguments, create_session, authorize}
use agent_identity_lab.Examples.{Party, create_blueprint_and_agent, suspend_agent, exchange_token}

-- `assert condition`
abbrev pub assert : Bool → Exec World (Unit {0})
assert condition = raise_if (not condition) assertion_error

abbrev pub is_allow : PolicyDecision → Bool
is_allow allow = true
is_allow deny = false

-- The try block of the suspended agent: only an `HTTPStatusError` of status 400 is what it expects.
unfoldable pub expect_refused : Result SessionResponse → Result (Unit {0})
expect_refused (ok session) = err assertion_error
expect_refused (err (http status detail)) = if nat_eq status 400 then ok tt else err assertion_error
expect_refused (err e) = err e

module _ (settings : Settings) (env : Environment) (prims : Primitives) (jwt : Jwt) (opa : Opa)
    (machine : Machine) where
  -- The session that the demonstrations open for the agent they have created.
  abbrev pub demo_session : Party → Option String → List String → Exec World SessionResponse
  demo_session party acting_user_id requested_scopes =
      create_session settings env prims jwt machine party.sdk
        (default_arguments (env.uuid_str party.agent.id) acting_user_id requested_scopes)

  -- hermes_agent/suspended_agent.py: the session before and the one after the suspension.
  unfoldable pub after_suspension : Party → Exec World (Unit {0})
  after_suspension party w =
      let (r, v) = demo_session party (some "demo_user") ("repo:read" ∷ []) w in
      (expect_refused r, v)

  unfoldable pub suspended_agent : Exec World (Unit {0})
  suspended_agent = do
    party ←
        create_blueprint_and_agent settings env machine "demo-suspended" "Demo Suspended Agent"
          ("repo:read" ∷ []) none "demo_user"
    first_session ← demo_session party (some "demo_user") ("repo:read" ∷ [])
    suspension ← suspend_agent settings env party.agent.id
    after_suspension party

  -- hermes_agent/machine_only_session.py
  unfoldable pub machine_only_session : Exec World (Unit {0})
  machine_only_session = do
    party ←
        create_blueprint_and_agent settings env machine "demo-machine-only"
          "Demo Machine-Only Agent" ("repo:read" ∷ []) none "demo_user"
    session ← demo_session party none ("repo:read" ∷ [])
    auth ← authorize settings env jwt opa session.token "github" "search_code"
    assert (not (is_some session.acting_user_id))
    assert (is_allow auth.decision)

  -- hermes_agent/invalid_runtime.py
  unfoldable pub invalid_runtime : Exec World (Unit {0})
  invalid_runtime = do
    party ←
        create_blueprint_and_agent settings env machine "demo-invalid-runtime"
          "Demo Runtime Guardrails" ("repo:read" ∷ []) (some ("production" ∷ [])) "demo_user"
    session ← demo_session party (some "demo_user") ("repo:read" ∷ [])
    auth ← authorize settings env jwt opa session.token "github" "search_code"
    assert (not (is_allow auth.decision))

  -- delegated_research/authorized_read.py
  unfoldable pub authorized_read : Exec World (Unit {0})
  authorized_read = do
    party ←
        create_blueprint_and_agent settings env machine "demo-research" "Demo Research Agent"
          ("repo:read" ∷ "issues:read" ∷ []) none "demo_user"
    session ← demo_session party (some "demo_user") ("repo:read" ∷ [])
    auth ← authorize settings env jwt opa session.token "github" "search_code"
    assert (is_allow auth.decision)

  -- unauthorized_write_attempt/denied_write.py
  unfoldable pub denied_write : Exec World (Unit {0})
  denied_write = do
    party ←
        create_blueprint_and_agent settings env machine "research-agent" "Research Agent"
          ("repo:read" ∷ "issues:read" ∷ []) none "demo_user"
    session ← demo_session party (some "demo_user") ("issues:write" ∷ [])
    auth ← authorize settings env jwt opa session.token "github" "create_issue"
    assert (not (is_allow auth.decision))

  -- delegated_research/secret_isolation.py; the reply has no field for a raw secret or a refresh
  -- token.
  unfoldable pub secret_isolation : Exec World (Unit {0})
  secret_isolation = do
    party ←
        create_blueprint_and_agent settings env machine "demo-secret-isolation"
          "Demo Secret Isolation Agent" ("repo:read" ∷ []) none "demo_user"
    session ← demo_session party (some "demo_user") ("repo:read" ∷ [])
    credential ← exchange_token env machine "github" ("repo:read" ∷ []) (env.uuid_str session.id)
    assert (starts_with credential.token "mock_oauth_token_")
    assert (not (contains "ghp_mock_secret_token" credential.token))
