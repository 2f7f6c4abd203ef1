-- ===== src/Policy/Tools/Agreement.antt =====
-- The gateway's registry against the evaluator's table.
use agent_identity_lab.Prelude.{
  String, All, lookup-All, refl, inl, inr, ◌≡◌, ◌⊎◌, none, some, List, [], ◌∷◌, lookup,
}
use agent_identity_lab.Policy.Tools.{tool_scope_map, tool_mappings}

abbrev Agrees : String → List String → Type 0
Agrees key required =
    (lookup key tool_scope_map ≡ some required)
    ⊎ (((key ≡ "github.read_file") ⊎ (key ≡ "confluence.update_page"))
        × (lookup key tool_scope_map ≡ none))

every_tool : All (λ e. Agrees e.0 e.1) tool_mappings
unfolding lookup
every_tool =
    let read_file : Agrees "github.read_file" ("repo:read" ∷ []) = inr (inl refl, refl) in
    let update_page : Agrees "confluence.update_page" ("pages:write" ∷ []) = inr (inr refl, refl) in
    (
      inl refl,
      (inl refl, (inl refl, (inl refl, (read_file, (inl refl, (inl refl, (update_page, tt))))))),
    )

-- Of an operation that the registry knows, either the evaluator's table has the same required
-- scopes, or it is github.read_file or confluence.update_page and the table does not have it.
pub registry_against_table :
    (key : String) (required : List String)
    → lookup key tool_mappings ≡ some required
    → (lookup key tool_scope_map ≡ some required)
      ⊎ (((key ≡ "github.read_file") ⊎ (key ≡ "confluence.update_page"))
          × (lookup key tool_scope_map ≡ none))
registry_against_table key required = lookup-All Agrees key required tool_mappings every_tool
