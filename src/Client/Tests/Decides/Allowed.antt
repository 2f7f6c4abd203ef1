-- ===== src/Client/Tests/Decides/Allowed.antt =====
-- A read that the blueprint of the concrete agent covers, and a write that it does not.
use agent_identity_lab.Prelude.{
  String, ◌≡◌, ◌≢◌, ◌↔◌, refl, eq_iff, Bool-cases, inl, inr, true, some, [], ◌∷◌, ◌==◌, elem,
  lookup,
}
use agent_identity_lab.Common.{PolicyDecision}
use agent_identity_lab.Exec.{ok}
use agent_identity_lab.Identity.Authorization.{AuthorizeResponse}
use agent_identity_lab.Identity.Tests.{settings, prims, opa, blueprint}
use agent_identity_lab.Client.{authorize}
use agent_identity_lab.Client.Allowed.{Covers, opened-allowed_iff}
use agent_identity_lab.Client.Tests.Decides.{
  env, jwt, world, after, args, response, is_served, opened, keys, named, read_back, private_loads,
  public_loads, past, alive,
}

ill : opa.health_status ≢ some 200
ill h = cc h

opened-allowed_iff_example :
    ((a : AuthorizeResponse) × ((authorize settings env jwt opa "token" "github" "search_code"
          after).0
        ≡ ok a)
      × (a.decision ≡ PolicyDecision.allow))
    ↔ Covers is_served.opened.who.blueprint "development" ("repo:read" ∷ []) "github" "search_code"
opened-allowed_iff_example =
    opened-allowed_iff settings env jwt opa ill prims args 1 "github" "search_code" world after
      response "private" "public" is_served refl refl named read_back private_loads public_loads
      keys past alive

search_code_covered : Covers blueprint "development" ("repo:read" ∷ []) "github" "search_code"
unfolding lookup elem
search_code_covered = record {
  required = "repo:read" ∷ [];
  known = refl;
  no_research_write = inl (λ h. cc h);
  approved = inr refl;
  scope = "repo:read";
  in_request = refl;
  in_blueprint = refl;
  in_tool = refl;
}

search_code_allowed :
    (a : AuthorizeResponse) × ((authorize settings env jwt opa "token" "github" "search_code"
        after).0
      ≡ ok a)
    × (a.decision ≡ PolicyDecision.allow)
unfolding is_served opened
search_code_allowed =
    (opened-allowed_iff settings env jwt opa ill prims args 1 "github" "search_code" world after
        response "private" "public" is_served refl refl named read_back private_loads public_loads
        keys past alive).1
      search_code_covered

create_issue_uncovered :
    Covers blueprint "development" ("repo:read" ∷ []) "github" "create_issue" → ⊥
unfolding lookup elem
create_issue_uncovered c =
    let needed : "issues:write" ∷ [] ≡ c.required = cc (c.known) in
    apart c.scope c.in_request (rw (← needed) at (c.in_tool))
  where
    apart :
        (s : String) → elem s ("repo:read" ∷ []) ≡ true → elem s ("issues:write" ∷ []) ≡ true → ⊥
    apart s h k = elim (Bool-cases (s == "repo:read")) [
      | inl same ↦ cc (rw ((eq_iff s "repo:read").0 same) at k)
      | inr other ↦ cc (rw other at h)
    ]
