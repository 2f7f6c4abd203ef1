-- ===== src/Policy/Tools.antt =====
-- The two tables of tool operations: `TOOL_SCOPE_MAP` of python_adapter.py and `TOOL_MAPPINGS` of
-- the gateway's registry.py, each with the scopes that an operation requires.
pub mod Agreement
use agent_identity_lab.Prelude.{String, Option, List, [], ◌∷◌, map, lookup, ◌+s◌}

abbrev pub tool_scope_map : List (String × List String)
tool_scope_map =
    ("github.search_code", "repo:read" ∷ [])
    ∷ ("github.create_issue", "issues:write" ∷ [])
    ∷ ("github.list_repos", "repo:read" ∷ [])
    ∷ ("github.list_issues", "issues:read" ∷ [])
    ∷ ("confluence.search", "pages:read" ∷ [])
    ∷ ("confluence.create_page", "pages:write" ∷ [])
    ∷ []

abbrev pub tool_mappings : List (String × List String)
tool_mappings =
    ("github.search_code", "repo:read" ∷ [])
    ∷ ("github.list_repos", "repo:read" ∷ [])
    ∷ ("github.create_issue", "issues:write" ∷ [])
    ∷ ("github.list_issues", "issues:read" ∷ [])
    ∷ ("github.read_file", "repo:read" ∷ [])
    ∷ ("confluence.search", "pages:read" ∷ [])
    ∷ ("confluence.create_page", "pages:write" ∷ [])
    ∷ ("confluence.update_page", "pages:write" ∷ [])
    ∷ []

-- A mapping is a non-empty dict, so it is never falsy where the key is there.
unfoldable pub get_required_scopes : String → String → Option (List String)
unfolding lookup
get_required_scopes tool_id operation = lookup (tool_id +s "." +s operation) tool_mappings

unfoldable pub list_tools : List String
list_tools = map (λ (key, _). key) tool_mappings
