-- ===== src/Client/Tests/Decides.antt =====
-- A session as the Identity API has just stored it, and the decision for its token.
mod Allowed
use agent_identity_lab.Prelude.{replace_z}
use agent_identity_lab.Json.{get}
use agent_identity_lab.Common.{verified}
use agent_identity_lab.Identity.Sessions.Recorded.{IsRecorded}
use agent_identity_lab.Prelude.{
  ◌+◌, ◌≤◌, ◌<◌, ◌≡◌, refl, false, none, some, [], ◌∷◌, ◌==◌, ◌++◌, nat_eq, arith, if◌then◌else◌,
  lookup, pop, nat_str,
}
use agent_identity_lab.Prelude.Int.{pos, add_seconds}
use agent_identity_lab.Json.{Dict, null, num, str, arr, strs, truthy}
use agent_identity_lab.Exec.{ok}
use agent_identity_lab.Models.{AgentSession, RuntimeAttestation}
use agent_identity_lab.Models.Table.{find}
use agent_identity_lab.Attestation.{of_str, hashed, seen}
use agent_identity_lab.Attestation.Accepted.{IsAccepted}
use agent_identity_lab.Tokens.{
  Jwt, decoded, timestamp, load_private_key, load_public_key, session_claims, issue_session_token,
}
use agent_identity_lab.Tokens.RoundTrip.{IsKeyPair}
use agent_identity_lab.Database.{World, Db, Environment}
use agent_identity_lab.Policy.Opa.{adapter_evaluate, get_policy_adapter}
use agent_identity_lab.Identity.Authorization.Asked.{query_of, reply_with}
use agent_identity_lab.Identity.Sessions.Api.{SessionResponse, session_response, signature_of}
use agent_identity_lab.Identity.Sessions.Issued.{HasTerms}
use agent_identity_lab.Identity.Sessions.Guarantee.{IsOpened}
use agent_identity_lab.Identity.Tests.{
  settings, tables, agent, blueprint, prims, opa, attestation, live_session, session_request,
}
use agent_identity_lab.Client.{SessionArguments, default_arguments, raise_for_status, authorize}
use agent_identity_lab.Client.Opens.{IsServed}
use agent_identity_lab.Client.Decides.{blueprint_id, answered_with, opened-decides}

-- The clock is right for tokens; the verifier's dates are those of the small database.
abbrev pub env : Environment
env = record {
  time = λ draws. if nat_eq draws 2 then 7000000000 else 63919596800000000 + draws;
  uuid = λ draws. 100 + draws;
  uuid_str = nat_str;
  uuid_hex = λ id. "0000000000000007";
  parse_uuid = λ s. if s == "107" then some 107 else none;
}

abbrev session : AgentSession
session = record live_session {
  id = 107;
  runtime_attestation_id = 104;
  trace_id = "trace_0000000000000007";
  issued_at = 63919596800000005;
  expires_at = 63919597400000005;
}

-- The claims of its token.
abbrev claims : Dict
claims =
    ("iss", str "agent-identity-lab")
    ∷ ("sub", str "agent:1")
    ∷ ("aud", str "mcp-gateway")
    ∷ ("iat", num (pos 1784000000))
    ∷ ("exp", num (pos 1784000600))
    ∷ ("jti", str "107")
    ∷ ("agent_id", str "1")
    ∷ ("blueprint_id", str "coding-agent:v1")
    ∷ ("acting_user", null)
    ∷ ("delegation_id", null)
    ∷ ("scopes", arr (strs ("repo:read" ∷ [])))
    ∷ ("model", str "deepseek-chat")
    ∷ ("prompt_version", str "v1")
    ∷ ("trace_id", str "trace_0000000000000007")
    ∷ ("policy_version", str "0.1.0")
    ∷ []

abbrev pub jwt : Jwt
jwt = record {
  encode = λ claims key alg. some "token";
  decode = λ now token key alg aud iss. decoded claims;
  file = λ path. none;
  ephemeral_keypair = ("private", "public");
}

abbrev stored : RuntimeAttestation
stored = record attestation {
  id = 104;
  nonce = "n1";
  verified_at = some 63919596800000003;
  verification_result = some verified;
}

abbrev tables_after : Db
tables_after = record tables {
  attestations = attestation ∷ stored ∷ [];
  sessions = tables.sessions ++ session ∷ [];
}

abbrev pub world : World
world = record { db = tables; durable = tables; nonces = []; draws = 0 }

abbrev served : World
served = record { db = tables_after; durable = tables; nonces = of_str "n1" ∷ []; draws = 9 }

abbrev pub after : World
after = record served { durable = tables_after }

abbrev pub args : SessionArguments
args = default_arguments "1" none ("repo:read" ∷ [])

abbrev pub response : SessionResponse
response = record {
  id = 107;
  agent_id = 1;
  acting_user_id = none;
  token = "token";
  trace_id = "trace_0000000000000007";
  effective_scopes = "repo:read" ∷ [];
  issued_at = 63919596800000005;
  expires_at = 63919597400000005;
}

accepts :
    IsAccepted prims 7000000000
      (pop "signature" session_request.runtime_attestation)
      (signature_of session_request.runtime_attestation)
      "key"
      (nat_str 1)
      []
      (of_str "n1")
unfolding pop lookup truthy hashed seen nat_str
accepts = record {
  signed = record {
    key = "key";
    hex = "ab";
    bytes = [];
    loaded = refl;
    given = refl;
    decoded = refl;
    checks = refl;
  };
  timely = record {
    written = "2026-07-10T00:00:00Z";
    issued_at = 7000000000;
    nonempty = refl;
    claimed = refl;
    parsed = refl;
    close = omega arith;
  };
  fresh = record { given = refl; hashable = refl; unseen = refl };
  complete = record {
    agent = refl;
    present = (refl, (refl, (refl, (refl, (refl, (refl, (refl, (refl, tt))))))));
  };
}

recorded :
    IsRecorded prims session_request
      (pop "signature" session_request.runtime_attestation)
      (signature_of session_request.runtime_attestation)
      63919596800000003
      stored
unfolding pop lookup replace_z
recorded = record {
  agent = refl;
  container_digest = refl;
  git_commit = refl;
  environment = refl;
  host_id = refl;
  framework = refl;
  framework_version = refl;
  model = refl;
  prompt_version = refl;
  nonce = refl;
  signed = refl;
  written = "2026-07-10T00:00:00Z";
  dated = refl;
  issued_at = refl;
  verified_at = refl;
  result = refl;
}

terms : HasTerms settings session_request blueprint session
unfolding add_seconds
terms = record {
  agent = refl;
  scopes = refl;
  user = refl;
  delegation = refl;
  model = refl;
  prompt_version = refl;
  live = refl;
  half_hour = omega arith;
  as_requested = omega arith;
  by_settings = omega arith;
  by_blueprint = omega arith;
}

pub opened :
    IsOpened settings env prims jwt session_request
      (record world { db = tables; draws = 2 })
      (session, "token")
      served
unfolding find nat_str issue_session_token load_private_key
opened = record {
  who = record { agent = agent; public_key = "key"; blueprint = blueprint };
  opener = record {
    agent_found = refl;
    agent_active = refl;
    key = refl;
    has_key = refl;
    blueprint_found = refl;
    blueprint_active = refl;
  };
  nonce = of_str "n1";
  accepts = accepts;
  delegated = λ id none_named. absurd (cc none_named);
  terms = terms;
  token = (63919596800000008, refl);
  attestation = stored;
  recorded = recorded;
  attested = refl;
  new_attestation = refl;
  new_session = refl;
  stored = refl;
  remembered = refl;
}

environment_sent :
    get "environment" (pop "signature" session_request.runtime_attestation) ≡ str "development"
unfolding pop lookup
environment_sent = refl

pub is_served : IsServed settings env prims jwt args 1 world response after
unfolding session_response
is_served = record {
  body = session_request;
  agent = refl;
  scopes = refl;
  environment = environment_sent;
  user = refl;
  answer = (session, "token");
  served = served;
  opened = opened;
  response = refl;
  committed = refl;
}

pub keys : IsKeyPair jwt "private" "public" "RS256" (
    session_claims jwt settings env.uuid_str is_served.opened.token.0 is_served.answer.0
      (blueprint_id is_served.opened.who.blueprint))
unfolding is_served opened session_claims timestamp nat_str
keys = record {
  token = "token";
  encodes = refl;
  decodes = λ now iat exp audience issuer h₁ h₂ h₃ h₄ h₅ h₆ h₇. refl;
}

pub named : (nat_str 107 == "") ≡ false
unfolding nat_str
named = refl

pub read_back : env.parse_uuid (nat_str 107) ≡ some 107
unfolding nat_str
read_back = refl

pub private_loads : load_private_key jwt settings ≡ ok "private"
unfolding load_private_key
private_loads = refl

pub public_loads : load_public_key jwt settings ≡ ok "public"
unfolding load_public_key
public_loads = refl

pub past : timestamp is_served.opened.token.0 ≤ timestamp (env.time 9)
unfolding is_served opened timestamp
past = omega arith

pub alive : timestamp (env.time 9) < timestamp 63919597400000005
unfolding timestamp
alive = omega arith

opened-decides_example :
    (authorize settings env jwt opa "token" "github" "search_code" after).0
    ≡ raise_for_status (
        answered_with
          (adapter_evaluate opa (get_policy_adapter opa) (
            query_of env.uuid_str "github" "search_code"
              ("repo:read" ∷ [])
              is_served.answer.0
              is_served.opened.who.agent
              is_served.opened.who.blueprint
              (some is_served.opened.attestation)))
          (reply_with is_served.answer.0))
opened-decides_example =
    opened-decides settings env jwt opa prims args 1 "github" "search_code" world after response
      "private" "public" is_served named read_back private_loads public_loads keys past alive
