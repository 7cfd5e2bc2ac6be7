-- ===== src/Spec/Accepted.antt =====
-- keep_spec/models.py: the validators of the envelope, and all of them over a spec.
use agent_keep.Base.{
  String, not, Option, List, [], ◌∷◌, ◌++◌, map, is_empty, contains, concat, if◌then◌else◌,
}
use agent_keep.Spec.Check.{Invalid, Verdict, refuse_if, ◌>>◌, each, optional}
use agent_keep.Spec.Intake.{Triggers}
use agent_keep.Spec.Tools.{McpServer, ToolGrant}
use agent_keep.Spec.Sections.{SpecSections}
use agent_keep.Spec.Validate.{
  UrlParts, precedence_iff_both, cron_is_real, channel_verdict, no_duplicate_roster_entries,
  keywords_iff_keyword_selection, no_embedded_credentials, grant_names_are_unique,
  auto_approve_iff_allowlist_policy, egress_hosts_wellformed,
}
use agent_keep.Spec.Priced.{models_verdict}

-- The loop of `_tool_server_names_are_unique`, from the names seen and the duplicates so far.
unfoldable pub duplicate_servers : List String → List String → List McpServer → List String
duplicate_servers seen duplicates [] = duplicates
duplicate_servers seen duplicates (server ∷ servers) =
    duplicate_servers (server.name ∷ seen)
      (if contains seen server.name
        then if contains duplicates server.name then duplicates else duplicates ++ server.name ∷ []
        else duplicates)
      servers

-- `_tool_server_names_are_unique`
unfoldable pub tool_server_names_are_unique : List McpServer → Verdict
tool_server_names_are_unique servers =
    refuse_if (not (is_empty (duplicate_servers [] [] servers)))
      (Invalid.duplicate_servers (duplicate_servers [] [] servers))

abbrev pub qualified_name : McpServer → ToolGrant → String
qualified_name server grant = concat (server.name ∷ "." ∷ grant.name ∷ [])

-- `declared`
unfoldable pub declared : List McpServer → List String
declared [] = []
declared (server ∷ servers) = map (qualified_name server) server.allow ++ declared servers

-- `missing`
unfoldable pub undeclared : List String → List String → List String
undeclared names [] = []
undeclared names (entry ∷ entries) =
    let rest = undeclared names entries in if contains names entry then rest else entry ∷ rest

-- `_auto_approve_names_declared_grants`
unfoldable pub auto_approve_names_declared_grants : List McpServer → List String → Verdict
auto_approve_names_declared_grants servers entries =
    refuse_if (not (is_empty (undeclared (declared servers) entries)))
      (Invalid.undeclared_grants (undeclared (declared servers) entries))

unfoldable pub triggers_verdict : Triggers → Verdict
triggers_verdict triggers = each cron_is_real triggers.activations

unfoldable pub server_verdict : (String → Option UrlParts) → McpServer → Verdict
server_verdict urlsplit server =
    no_embedded_credentials urlsplit server.transport >> grant_names_are_unique server

-- `validate_spec_data`, over data of the declared shape.
unfoldable pub validate : {F : Type 0} → (String → Option UrlParts) → SpecSections F → Verdict
validate urlsplit s =
    precedence_iff_both s.persona
    >> optional triggers_verdict s.triggers
    >> each channel_verdict s.channels
    >> optional no_duplicate_roster_entries s.gateway.allowlist
    >> each keywords_iff_keyword_selection s.skills
    >> each (server_verdict urlsplit) s.tools
    >> auto_approve_iff_allowlist_policy s.approval
    >> egress_hosts_wellformed s.sandbox
    >> models_verdict s.models
    >> tool_server_names_are_unique s.tools
    >> auto_approve_names_declared_grants s.tools s.approval.auto_approve
