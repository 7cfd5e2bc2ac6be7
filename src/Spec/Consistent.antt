-- ===== src/Spec/Consistent.antt =====
-- What `validate_spec_data` accepts.
use agent_keep.Base.{
  String, true, false, Option, List, [], ◌∷◌, ◌++◌, ◌≡◌, ◌↔◌, inl, inr, refl, map, is_empty,
  contains, In, In-append, In-map, Unique, Fresh, Fresh-iff, if_elim, All, contains_iff, Bool-cases,
}
use agent_keep.Spec.Check.{Accepts, Optionally, passes, each_iff, optional_iff, both_iff}
use agent_keep.Spec.Intake.{Triggers}
use agent_keep.Spec.Tools.{McpServer, ToolGrant}
use agent_keep.Spec.Sections.{SpecSections}
use agent_keep.Spec.Validate.{
  UrlParts, channel_verdict, cron_is_real, no_duplicate_roster_entries,
  keywords_iff_keyword_selection, grant_names,
}
use agent_keep.Spec.Accepted.{
  duplicate_servers, tool_server_names_are_unique, qualified_name, declared, undeclared,
  auto_approve_names_declared_grants, triggers_verdict, server_verdict, validate,
}
use agent_keep.Spec.Sound.{
  IsPersona, IsChannel, IsActivation, IsSkillPack, IsTransport, IsApproval, IsEntry, ids,
  precedence_iff_both_iff, keywords_iff_keyword_selection_iff, channel_verdict_iff,
  cron_is_real_iff, no_embedded_credentials_iff, grant_names_are_unique_iff,
  no_duplicate_roster_entries_iff, auto_approve_iff_allowlist_policy_iff,
  egress_hosts_wellformed_iff,
}
use agent_keep.Spec.Configured.{AreModels, models_verdict_iff}

abbrev pub server_names : List McpServer → List String
server_names servers = map (λ s. s.name) servers

duplicate_servers-kept :
    (seen : List String) (d : String) (ds : List String) (ss : List McpServer)
    → is_empty (duplicate_servers seen (d ∷ ds) ss) ≡ false
unfolding duplicate_servers
duplicate_servers-kept seen d ds [] = refl
duplicate_servers-kept seen d ds (s ∷ ss) =
    let same = duplicate_servers-kept (s.name ∷ seen) d ds ss in
    let more = duplicate_servers-kept (s.name ∷ seen) d (ds ++ s.name ∷ []) ss in
    let P : List String → Type 0 =
      λ acc. is_empty (duplicate_servers (s.name ∷ seen) acc ss) ≡ false in
    if_elim P (contains seen s.name) _ _
      (λ e. if_elim P (contains (d ∷ ds) s.name) _ _ (λ f. same) (λ f. more)) (λ e. same)

duplicate_servers-Fresh :
    (seen : List String) (ss : List McpServer)
    → (is_empty (duplicate_servers seen [] ss) ≡ true) ↔ Fresh seen (server_names ss)
unfolding duplicate_servers contains
duplicate_servers-Fresh seen [] = (λ h. tt, λ h. refl)
duplicate_servers-Fresh seen (s ∷ ss) =
    let ih = duplicate_servers-Fresh (s.name ∷ seen) ss in
    let c = contains_iff seen s.name in
    elim (Bool-cases (contains seen s.name)) [
      | inl y ↦ rw y (
        λ h. absurd (cc (h, duplicate_servers-kept (s.name ∷ seen) s.name [] ss)),
        λ h. absurd (h.0 (c.0 y)),
      )
      | inr n ↦ rw n (λ h. (λ i. absurd (cc (n, c.1 i)), ih.0 h), λ h. ih.1 h.1)
    ]

pub tool_server_names_are_unique_iff :
    (ss : List McpServer) → Accepts (tool_server_names_are_unique ss) ↔ Unique (server_names ss)
unfolding tool_server_names_are_unique
tool_server_names_are_unique_iff ss =
    let p = passes (is_empty (duplicate_servers [] [] ss)) _ in
    let d = duplicate_servers-Fresh [] ss in
    let f = Fresh-iff [] (server_names ss) in
    (λ h. (f.0 (d.0 (p.0 h))).0, λ u. p.1 (d.1 (f.1 (u, λ n i s. s))))

-- A tool that some server of the spec grants.
abbrev pub IsGranted : List McpServer → String → Type 0
IsGranted ss name =
    (server : McpServer) × (grant : ToolGrant) × In server ss
    × In grant server.allow
    × (qualified_name server grant ≡ name)

declared-IsGranted : (ss : List McpServer) (n : String) → In n (declared ss) ↔ IsGranted ss n
unfolding declared
declared-IsGranted [] n = (λ h. absurd h, λ (s, g, i, j, e). absurd i)
declared-IsGranted (s ∷ ss) n =
    let ih = declared-IsGranted ss n in
    let a = In-append n (map (qualified_name s) s.allow) (declared ss) in
    let m = In-map (qualified_name s) n s.allow in
    (
      λ h. elim (a.0 h) [
        | inl here ↦ let (g, j, e) = m.0 here in (s, g, inl refl, j, e)
        | inr there ↦ let (t, g, i, j, e) = ih.0 there in (t, g, inr i, j, e)
      ],
      λ (t, g, i, j, e). elim i [
        | inl q ↦ a.1 (inl (m.1 (g, rw q j, rw q e)))
        | inr there ↦ a.1 (inr (ih.1 (t, g, there, j, e)))
      ],
    )

undeclared_iff :
    (ss : List McpServer) (entries : List String)
    → (is_empty (undeclared (declared ss) entries) ≡ true) ↔ All (IsGranted ss) entries
unfolding undeclared
undeclared_iff ss [] = (λ h. tt, λ h. refl)
undeclared_iff ss (entry ∷ entries) =
    let ih = undeclared_iff ss entries in
    let c = contains_iff (declared ss) entry in
    let d = declared-IsGranted ss entry in
    elim (Bool-cases (contains (declared ss) entry)) [
      | inl y ↦ rw y (λ h. (d.0 (c.0 y), ih.0 h), λ h. ih.1 h.1)
      | inr n ↦ rw n (λ h. absurd (cc h), λ h. absurd (cc (n, c.1 (d.1 h.0))))
    ]

auto_approve_names_declared_grants_iff :
    (ss : List McpServer) (entries : List String)
    → Accepts (auto_approve_names_declared_grants ss entries) ↔ All (IsGranted ss) entries
unfolding auto_approve_names_declared_grants
auto_approve_names_declared_grants_iff ss entries =
    let p = passes (is_empty (undeclared (declared ss) entries)) _ in
    let u = undeclared_iff ss entries in (λ h. u.0 (p.0 h), λ h. p.1 (u.1 h))

-- A server whose URL can be reached without credentials, each of its grants once.
abbrev pub IsServer : (String → Option UrlParts) → McpServer → Type 0
IsServer urlsplit s = IsTransport urlsplit s.transport × Unique (grant_names s)

-- A spec whose sections agree with one another.
pub record IsConsistent {F : Type 0} (urlsplit : String → Option UrlParts) (s : SpecSections F)
    : Type 0 where
  pub persona : IsPersona s.persona
  pub triggers : Optionally (λ t. All IsActivation t.activations) s.triggers
  pub channels : All IsChannel s.channels
  pub roster : Optionally (λ a. Unique (ids a.roster)) s.gateway.allowlist
  pub skills : All IsSkillPack s.skills
  pub servers : All (IsServer urlsplit) s.tools
  pub approval : IsApproval s.approval
  pub egress : All IsEntry s.sandbox.egress
  pub models : AreModels s.models
  pub names : Unique (server_names s.tools)
  pub granted : All (IsGranted s.tools) s.approval.auto_approve

triggers_verdict_iff :
    (t : Triggers) → Accepts (triggers_verdict t) ↔ All IsActivation t.activations
unfolding triggers_verdict
triggers_verdict_iff t = each_iff IsActivation cron_is_real cron_is_real_iff t.activations

server_verdict_iff :
    (urlsplit : String → Option UrlParts) (s : McpServer)
    → Accepts (server_verdict urlsplit s) ↔ IsServer urlsplit s
unfolding server_verdict
server_verdict_iff urlsplit s =
    both_iff _ _ (no_embedded_credentials_iff urlsplit s.transport) (grant_names_are_unique_iff s)

validate-chain :
    {F : Type 0} (urlsplit : String → Option UrlParts) (s : SpecSections F)
    → Accepts (validate urlsplit s) ↔ (
        IsPersona s.persona
        × (Optionally (λ t. All IsActivation t.activations) s.triggers
            × (All IsChannel s.channels
                × (Optionally (λ a. Unique (ids a.roster)) s.gateway.allowlist
                    × (All IsSkillPack s.skills
                        × (All (IsServer urlsplit) s.tools
                            × (IsApproval s.approval
                                × (All IsEntry s.sandbox.egress
                                    × (AreModels s.models
                                        × (Unique (server_names s.tools)
                                            × All
                                                (IsGranted s.tools)
                                                s.approval.auto_approve))))))))))
unfolding validate
validate-chain urlsplit s = both_iff _ _ (precedence_iff_both_iff s.persona) (
    both_iff _ _ (optional_iff _ triggers_verdict triggers_verdict_iff s.triggers) (
      both_iff _ _ (each_iff IsChannel channel_verdict channel_verdict_iff s.channels) (
        both_iff _ _
          (optional_iff _ no_duplicate_roster_entries no_duplicate_roster_entries_iff
            s.gateway.allowlist)
          (both_iff _ _
            (each_iff IsSkillPack keywords_iff_keyword_selection keywords_iff_keyword_selection_iff
              s.skills)
            (both_iff _ _
              (each_iff (IsServer urlsplit) (server_verdict urlsplit) (server_verdict_iff urlsplit)
                s.tools)
              (both_iff _ _ (auto_approve_iff_allowlist_policy_iff s.approval) (
                both_iff _ _ (egress_hosts_wellformed_iff s.sandbox) (
                  both_iff _ _ (models_verdict_iff s.models) (
                    both_iff _ _ (tool_server_names_are_unique_iff s.tools) (
                      auto_approve_names_declared_grants_iff s.tools
                        s.approval.auto_approve))))))))))

-- A spec is accepted exactly if it is consistent: a precedence where both personas are used, a secret
-- where deliveries are verified, schedules that parse, every principal, tier, server and grant of a
-- server named once, keywords where they select, no credentials in a URL, pre-approved tools only
-- under the policy that knows them and each of them granted, egress entries of the grammar with a
-- port in range, the config of exactly the selected provider on every path, and a price on every path
-- under a ceiling in USD.
pub validate-IsConsistent :
    {F : Type 0} (urlsplit : String → Option UrlParts) (s : SpecSections F)
    → Accepts (validate urlsplit s) ↔ IsConsistent urlsplit s
validate-IsConsistent urlsplit s =
    let c = validate-chain urlsplit s in
    (
      λ h.
          let (a, (b, (d, (e, (f, (g, (i, (j, (k, (l, m)))))))))) = c.0 h in
          record {
            persona = a;
            triggers = b;
            channels = d;
            roster = e;
            skills = f;
            servers = g;
            approval = i;
            egress = j;
            models = k;
            names = l;
            granted = m;
          },
      λ r. c.1 (
        r.persona,
        (
          r.triggers,
          (
            r.channels,
            (
              r.roster,
              (r.skills, (r.servers, (r.approval, (r.egress, (r.models, (r.names, r.granted)))))),
            ),
          ),
        ),
      ),
    )
