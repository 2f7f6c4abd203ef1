-- ===== src/Identity/Tests/Completed.antt =====
-- A request that passes every check, on the small database.
use agent_identity_lab.Identity.Sessions.Completed.{IsSigningKey}
use agent_identity_lab.Prelude.{contains, true, false, ◌∷◌}
use agent_identity_lab.Database.{fits, fits_json, attestation_fits, session_fits}
use agent_identity_lab.Prelude.{◌≡◌, refl, some, [], pop, lookup, nat_str, String, arith}
use agent_identity_lab.Json.{truthy}
use agent_identity_lab.Common.{verified}
use agent_identity_lab.Exec.{ok}
use agent_identity_lab.Models.{AgentSession, RuntimeAttestation}
use agent_identity_lab.Models.Table.{find}
use agent_identity_lab.Attestation.{of_str, hashed, seen}
use agent_identity_lab.Attestation.Accepted.{IsAccepted}
use agent_identity_lab.Tokens.{load_private_key}
use agent_identity_lab.Database.{World}
use agent_identity_lab.Identity.Sessions.{Opener, attestation_row, issued_at_of}
use agent_identity_lab.Identity.Sessions.Api.{signature_of, create_session}
use agent_identity_lab.Identity.Sessions.Opened.{IsOpener}
use agent_identity_lab.Identity.Sessions.Guarantee.{IsOpened}
use agent_identity_lab.Identity.Sessions.Completed.{HasFreshIds, create_session-completes}
use agent_identity_lab.Identity.Tests.{
  settings, env, prims, jwt, agent, blueprint, attestation, world, session_request,
}

abbrev who : Opener
who = record { agent = agent; public_key = "key"; blueprint = blueprint }

abbrev stored : RuntimeAttestation
stored = record attestation {
  id = 102;
  nonce = "n1";
  verified_at = some 7300000001;
  verification_result = some verified;
}

who-IsOpener : IsOpener 1 world who
unfolding find
who-IsOpener = record {
  agent_found = refl;
  agent_active = refl;
  key = refl;
  has_key = refl;
  blueprint_found = refl;
  blueprint_active = refl;
}

accepts :
    IsAccepted prims
      (env.time 0)
      (pop "signature" session_request.runtime_attestation)
      (signature_of session_request.runtime_attestation)
      "key"
      (nat_str 1)
      []
      (of_str "n1")
unfolding pop lookup truthy hashed seen nat_str
accepts = record {
  signed = record {
    key = "key";
    hex = "ab";
    bytes = [];
    loaded = refl;
    given = refl;
    decoded = refl;
    checks = refl;
  };
  timely = record {
    written = "2026-07-10T00:00:00Z";
    issued_at = 7000000000;
    nonempty = refl;
    claimed = refl;
    parsed = refl;
    close = omega arith;
  };
  fresh = record { given = refl; hashable = refl; unseen = refl };
  complete = record {
    agent = refl;
    present = (refl, (refl, (refl, (refl, (refl, (refl, (refl, (refl, tt))))))));
  };
}

row :
    attestation_row prims 102 session_request
      (pop "signature" session_request.runtime_attestation)
      (signature_of session_request.runtime_attestation)
      7300000001
    ≡ some stored
unfolding attestation_row issued_at_of pop lookup
row = refl

fresh : HasFreshIds env world
unfolding find
fresh = record {
  attestations = λ k later. ground (arith, later);
  sessions = λ k later. ground (arith, later);
}

loads : load_private_key jwt settings ≡ ok "private"
unfolding load_private_key
loads = refl

stored_fits : attestation_fits stored ≡ true
unfolding attestation_fits fits contains
stored_fits = refl

asked_fits :
    session_fits session_request.acting_user_id session_request.model_id
      session_request.prompt_version session_request.requested_scopes
    ≡ true
unfolding session_fits fits fits_json contains
asked_fits = refl

-- A text that is too long, or has a NUL, fits no column.
unfitting : (fits 3 "abcd" ≡ false) × (fits 3 "a\0" ≡ false) × (fits_json ("\0" ∷ []) ≡ false)
unfolding fits fits_json contains
unfitting = (refl, refl, refl)

signs : IsSigningKey jwt "private" "RS256"
signs = record { encodes = λ claims. ("token", refl) }

create_session-completes_example :
    (answer : AgentSession × String) × (v : World) × (create_session settings env prims jwt
        session_request world
      ≡ (ok answer, v))
    × IsOpened settings env prims jwt session_request world answer v
create_session-completes_example =
    create_session-completes settings env prims jwt session_request world who (of_str "n1") stored
      "private" refl who-IsOpener accepts row stored_fits asked_fits refl
      (λ id none_named. absurd (cc none_named)) fresh loads signs
