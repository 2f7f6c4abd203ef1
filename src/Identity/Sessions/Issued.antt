-- ===== src/Identity/Sessions/Issued.antt =====
-- The session that is stored, and its terms.
use agent_identity_lab.Prelude.{
  ℕ, ◌≤◌, ◌+◌, String, ◌≡◌, refl, sym, subst, none, [], ◌∷◌, ◌++◌, nat_str, arith, ◌+s◌,
}
use agent_identity_lab.Prelude.Int.{ℤ, pos, min_ℤ, min_ℤ_le, add_seconds, add_seconds_mono, ◌≤ℤ◌}
use agent_identity_lab.Common.{Settings}
use agent_identity_lab.Exec.{ok}
use agent_identity_lab.Exec.Ensures.{Ensures, Ensures-ok, Ensures-bind, Ensures-lift}
use agent_identity_lab.Models.{AgentSession, AgentBlueprint, RuntimeAttestation}
use agent_identity_lab.Attestation.{Primitives}
use agent_identity_lab.Tokens.{Jwt, issue_session_token}
use agent_identity_lab.Database.{World, Environment, find_session, add_session}
use agent_identity_lab.Identity.Sessions.{
  SessionCreateRequest, ttl_of, session_row, issue_now, open_session,
}
use agent_identity_lab.Identity.Sessions.Opened.{add_session-after}

-- The terms of a session: for the agent, the user, the delegation and the model of the request,
-- with the scopes it asked for, not revoked, and as long as the request, the settings and the blueprint allow, half an hour at most.
pub record HasTerms (settings : Settings) (body : SessionCreateRequest) (b : AgentBlueprint)
    (s : AgentSession) : Type 0 where
  pub agent : s.agent_id ≡ body.agent_id
  pub scopes : s.effective_scopes ≡ body.requested_scopes
  pub user : s.acting_user_id ≡ body.acting_user_id
  pub delegation : s.delegation_grant_id ≡ body.delegation_grant_id
  pub model : s.model_id ≡ body.model_id
  pub prompt_version : s.prompt_version ≡ body.prompt_version
  pub live : s.revoked_at ≡ none
  pub half_hour : s.expires_at ≤ add_seconds s.issued_at (pos 1800)
  pub as_requested : s.expires_at ≤ add_seconds s.issued_at body.requested_ttl_seconds
  pub by_settings : s.expires_at ≤ add_seconds s.issued_at settings.session_max_ttl_seconds
  pub by_blueprint : s.expires_at ≤ add_seconds s.issued_at b.max_session_ttl_seconds

module _ (settings : Settings) (env : Environment) (prims : Primitives) (jwt : Jwt) where
  ttl_of_le :
      (requested : ℤ) (b : AgentBlueprint)
      → (ttl_of settings env prims jwt requested b ≤ℤ requested)
        × (ttl_of settings env prims jwt requested b ≤ℤ settings.session_max_ttl_seconds)
        × (ttl_of settings env prims jwt requested b ≤ℤ b.max_session_ttl_seconds)
  unfolding ttl_of
  ttl_of_le requested b =
      let outer =
        min_ℤ_le (min_ℤ requested settings.session_max_ttl_seconds) b.max_session_ttl_seconds in
      let inner = min_ℤ_le requested settings.session_max_ttl_seconds in
      (omega (arith, outer.0, inner.0), omega (arith, outer.0, inner.1), outer.1)

  -- The session and its token, at the clock of this state.
  pub record IsIssued (body : SessionCreateRequest) (b : AgentBlueprint) (a : RuntimeAttestation)
      (w : World) (answer : AgentSession × String) (v : World) : Type 0 where
    pub row :
        answer.0
        ≡ session_row settings env prims jwt
            (env.uuid (w.draws + 1 + 1))
            (env.time w.draws)
            (env.uuid (w.draws + 1))
            body
            b
            a
    pub token :
        issue_session_token jwt settings env.uuid_str
          (env.time (w.draws + 1 + 1 + 1))
          answer.0
          (b.slug +s ":v" +s nat_str b.version)
        ≡ ok answer.1
    pub after : v ≡ record w {
      db = record w.db { sessions = w.db.sessions ++ answer.0 ∷ [] };
      draws = w.draws + 1 + 1 + 1 + 1;
    }
    pub new_id : find_session answer.0.id w.db ≡ none

  pub open_session-IsIssued :
      (body : SessionCreateRequest) (b : AgentBlueprint) (a : RuntimeAttestation) (w : World)
      → Ensures (open_session settings env prims jwt body b a w) (IsIssued body b a w)
  unfolding open_session issue_now
  open_session-IsIssued body b a w =
      Ensures-bind (λ _ v. (v ≡ stored_in) × (find_session row.id w.db ≡ none)) Q (add_session row)
        _ _ (add_session-after settings env prims jwt row _)
        λ _ (stored, new_id).
          subst (λ x. Ensures (issue_now settings env prims jwt row b x) Q) (sym stored)
            (Ensures-lift Q _ _ _ λ token issued.
              Ensures-ok Q (row, token) _
                (record { row = refl; token = issued; after = refl; new_id = new_id }))
    where
      row : AgentSession
      row =
          session_row settings env prims jwt (env.uuid (w.draws + 1 + 1)) (env.time w.draws)
            (env.uuid (w.draws + 1)) body b a

      stored_in : World
      stored_in = record w {
        db = record w.db { sessions = w.db.sessions ++ row ∷ [] };
        draws = w.draws + 1 + 1 + 1;
      }

      Q : AgentSession × String → World → Type 0
      Q = IsIssued body b a w

  pub session_row-HasTerms :
      (id t hex : ℕ) (body : SessionCreateRequest) (b : AgentBlueprint) (a : RuntimeAttestation)
      → body.requested_ttl_seconds ≤ℤ pos 1800
      → HasTerms settings body b (session_row settings env prims jwt id t hex body b a)
  unfolding session_row
  session_row-HasTerms id t hex body b a short =
      let bounds = ttl_of_le body.requested_ttl_seconds b in
      record {
        agent = refl;
        scopes = refl;
        user = refl;
        delegation = refl;
        model = refl;
        prompt_version = refl;
        live = refl;
        half_hour = add_seconds_mono t _ (pos 1800) (omega (arith, bounds.0, short));
        as_requested = add_seconds_mono t _ body.requested_ttl_seconds bounds.0;
        by_settings = add_seconds_mono t _ settings.session_max_ttl_seconds bounds.1;
        by_blueprint = add_seconds_mono t _ b.max_session_ttl_seconds bounds.2;
      }

  pub session_row-attestation :
      (id t hex : ℕ) (body : SessionCreateRequest) (b : AgentBlueprint) (a : RuntimeAttestation)
      → (session_row settings env prims jwt id t hex body b a).runtime_attestation_id ≡ a.id
  unfolding session_row
  session_row-attestation id t hex body b a = refl
