-- ===== src/Client/Tests.antt =====
-- The client at a concrete agent, and each theorem about it there.
mod Decides
use agent_identity_lab.Identity.Sessions.Completed.{IsSigningKey}
use agent_identity_lab.Prelude.{contains, ◌&&◌}
use agent_identity_lab.Database.{fits, fits_json, session_fits}
use agent_identity_lab.Prelude.{
  ℕ, zero, suc, ◌+◌, ◌-◌, ◌≤◌, String, ◌≡◌, refl, ap, inl, inr, Bool-cases, eq_iff, Bool, true,
  false, Option, none, some, List, [], ◌∷◌, ◌==◌, arith, any, if◌then◌else◌, replace_z, lookup, pop,
  put, nat_str,
}
use Prim.Native.String
use agent_identity_lab.Json.{Dict, null, num, str, arr, strs}
use agent_identity_lab.Prelude.Int.{pos, min_ℤ, add_seconds}
use agent_identity_lab.Exec.{ok}
use agent_identity_lab.Attestation.{Primitives, rsa, aware, of_str, seen}
use agent_identity_lab.Attestation.Replay.{IsKeyPair}
use agent_identity_lab.Models.Table.{find}
use agent_identity_lab.Tokens.{Jwt, decoded, load_private_key}
use agent_identity_lab.Database.{World, Environment, Db, find_attestation, find_session}
use agent_identity_lab.Identity.Sessions.{Opener}
use agent_identity_lab.Identity.Sessions.Api.{SessionResponse}
use agent_identity_lab.Identity.Sessions.Opened.{IsOpener}
use agent_identity_lab.Identity.Sessions.Completed.{HasFreshIds}
use agent_identity_lab.Identity.Tests.{settings, tables, agent, blueprint, jwt}
use agent_identity_lab.Client.{
  AgentIdentityClient, Machine, SessionArguments, default_arguments, create_session,
}
use agent_identity_lab.Client.Opens.{HasIsoFormat, IsServed, create_session-IsServed}

-- A time as so many letters and one more, which are counted to read it back.
letters : ℕ → String
letters zero = ""
letters (suc n) = String.◌∷◌ "a" (letters n)

count : String → ℕ
count String.[] = 0
count (String.◌∷◌ c s) = suc (count s)

count-letters : (n : ℕ) → count (replace_z (letters n)) ≡ n
unfolding letters count replace_z
count-letters zero = refl
count-letters (suc n) = ap suc (count-letters n)

abbrev env : Environment
env = record {
  time = λ draws. 63919596800000000 + draws;
  uuid = λ draws. 100 + draws;
  uuid_str = nat_str;
  uuid_hex = λ id. "0000000000000007";
  parse_uuid = λ s. if s == "1" then some 1 else none;
}

abbrev machine : Machine
machine = record { generate = λ draws. ("private", "key"); isoformat = λ t. letters (suc t) }

abbrev prims : Primitives
prims = record {
  dumps = λ d. "claims";
  load_public = λ pem. some (rsa pem);
  from_hex = λ s. some [];
  check = λ key bytes message. true;
  from_iso = λ s. aware (count s - 1);
  load_private = λ pem. some pem;
  sign_hex = λ key message. "ab";
}

iso : HasIsoFormat prims machine
unfolding letters
iso = record {
  nonempty = λ t. elim (Bool-cases (letters (suc t) == "")) [
    | inl h ↦ absurd (cc ((eq_iff (letters (suc t)) "").0 h))
    | inr h ↦ h
  ];
  parses = λ t. rw (count-letters (suc t)) (ap aware (omega arith));
}

abbrev world : World
world = record { db = tables; durable = tables; nonces = []; draws = 0 }

abbrev start : World
start = record { db = tables; durable = tables; nonces = []; draws = 2 }

abbrev client : AgentIdentityClient
client = record { api_url = "http://localhost:8000"; private_key = some "private" }

abbrev args : SessionArguments
args = default_arguments "1" none ("repo:read" ∷ [])

abbrev who : Opener
who = record { agent = agent; public_key = "key"; blueprint = blueprint }

who-IsOpener : IsOpener 1 start who
unfolding find
who-IsOpener = record {
  agent_found = refl;
  agent_active = refl;
  key = refl;
  has_key = refl;
  blueprint_found = refl;
  blueprint_active = refl;
}

pair : IsKeyPair prims "private" "key"
pair = record {
  secret = "private";
  shared = "key";
  private_loads = refl;
  public_loads = refl;
  signs = λ message. ([], refl, refl);
}

fresh : HasFreshIds env start
unfolding find
fresh = record {
  attestations = λ k later. ground (arith, later);
  sessions = λ k later. ground (arith, later);
}

named : "1" ≡ nat_str 1
unfolding nat_str
named = refl

given : (nat_str 101 == "") ≡ false
unfolding nat_str
given = refl

unseen : seen (of_str (nat_str 101)) [] ≡ false
unfolding seen
unseen = refl

unstored : any (λ q. q.nonce == nat_str 101) tables.attestations ≡ false
unfolding nat_str
unstored = refl

loads : load_private_key jwt settings ≡ ok "private"
unfolding load_private_key
loads = refl

hex_fits : (key message : String) → fits 4096 (prims.sign_hex key message) ≡ true
unfolding fits contains
hex_fits key message = refl

texts_fit : fits 64 args.environment && fits 128 (nat_str 101) ≡ true
unfolding fits contains nat_str
texts_fit = refl

asked_fits :
    session_fits args.acting_user_id args.model_id args.prompt_version args.requested_scopes ≡ true
unfolding session_fits fits fits_json contains
asked_fits = refl

signs : IsSigningKey jwt "private" "RS256"
signs = record { encodes = λ claims. ("token", refl) }

create_session-IsServed_example :
    (r : SessionResponse) × (v : World) × (create_session settings env prims jwt machine client args
        world
      ≡ (ok r, v))
    × IsServed settings env prims jwt args 1 world r v
create_session-IsServed_example =
    create_session-IsServed settings env prims jwt machine client args world 1 who "private"
      "private" refl refl named refl who-IsOpener pair iso (omega arith) given unseen unstored fresh
      hex_fits texts_fit asked_fits loads signs
