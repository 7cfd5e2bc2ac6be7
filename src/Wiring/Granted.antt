-- ===== src/Wiring/Granted.antt =====
-- Skills, tools, approval, sandbox, models: what `unimplemented_selections` reports nothing about.
use agent_keep.Base.{
  String, true, not, List, [], ◌∷◌, ◌++◌, ◌≡◌, ◌↔◌, refl, is_empty, both_empty, contains,
  contains_iff, In, All, if◌then◌else◌,
}
use agent_keep.Base.Dict
use agent_keep.Spec.Tools.{
  SkillPack, McpTransport, stdio, http, local, ToolGrant, McpServer, ApprovalPolicy, Profile,
}
use agent_keep.Spec.Providers.{Provider, ModelTier, provider_name}
use agent_keep.Spec.Validate.{confirms_rest}
use agent_keep.Wiring.Tables.{provider_components}
use agent_keep.Wiring.Guards.{
  Missing, missing_if, is_local, grants_missing, local_missing, is_container, skills_missing,
  tiers_missing,
}
use agent_keep.Wiring.Reports.{buildable_iff}

-- A local server's tools are all registered.
abbrev pub IsRegistered : List String → McpServer → Type 0
IsRegistered known s = s.transport ≡ local → All (λ (g : ToolGrant). In g.name known) s.allow

pub confirms_iff :
    (p : ApprovalPolicy) → (confirms_rest p ≡ true) ↔ (p ≡ ApprovalPolicy.allowlist_confirm_rest)
confirms_iff ApprovalPolicy.autonomous = (λ h. cc, λ h. cc)
confirms_iff ApprovalPolicy.allowlist_confirm_rest = (λ h. refl, λ h. refl)
confirms_iff ApprovalPolicy.everything = (λ h. cc, λ h. cc)

pub container_iff : (p : Profile) → (is_container p ≡ true) ↔ (p ≡ Profile.container)
container_iff Profile.same_process = (λ h. cc, λ h. cc)
container_iff Profile.restricted_user = (λ h. cc, λ h. cc)
container_iff Profile.container = (λ h. refl, λ h. refl)

pub skills_missing_iff : (ps : List SkillPack) → (is_empty (skills_missing ps) ≡ true) ↔ (ps ≡ [])
skills_missing_iff [] = (λ h. refl, λ h. refl)
skills_missing_iff (p ∷ ps) = (λ h. absurd (cc h), λ h. absurd (cc h))

pub grants_missing_iff :
    (known : List String) (server : String) (gs : List ToolGrant)
    → (is_empty (grants_missing known server gs) ≡ true)
      ↔ All (λ (g : ToolGrant). In g.name known) gs
unfolding grants_missing
grants_missing_iff known server [] = (λ h. tt, λ h. refl)
grants_missing_iff known server (g ∷ gs) =
    both_empty (missing_if (not (contains known g.name)) (Missing.local_tool g.name server)) _
      (buildable_iff (contains known g.name) _ (contains_iff known g.name))
      (grants_missing_iff known server gs)

pub server_missing_iff :
    (known : List String) (name : String) (t : McpTransport) (gs : List ToolGrant)
    → (is_empty (if is_local t then grants_missing known name gs else []) ≡ true)
      ↔ (t ≡ local → All (λ (g : ToolGrant). In g.name known) gs)
server_missing_iff known name (stdio t) gs = (λ h q. absurd (cc q), λ h. refl)
server_missing_iff known name (http t) gs = (λ h q. absurd (cc q), λ h. refl)
server_missing_iff known name local gs =
    let g = grants_missing_iff known name gs in (λ h q. g.0 h, λ h. g.1 (h refl))

pub local_missing_iff :
    (known : List String) (ss : List McpServer)
    → (is_empty (local_missing known ss) ≡ true) ↔ All (IsRegistered known) ss
unfolding local_missing
local_missing_iff known [] = (λ h. tt, λ h. refl)
local_missing_iff known (s ∷ ss) =
    both_empty (if is_local s.transport then grants_missing known s.name s.allow else []) _
      (server_missing_iff known s.name s.transport s.allow) (local_missing_iff known ss)

pub tiers_missing_none : {F : Type 0} (ts : List (ModelTier F)) → is_empty (tiers_missing ts) ≡ true
unfolding tiers_missing provider_components Dict.get
tiers_missing_none [] = refl
tiers_missing_none (t ∷ ts) = by_provider t.provider (tiers_missing ts) (tiers_missing_none ts)
  where
    by_provider :
        (p : Provider) (rest : List Missing)
        → is_empty rest ≡ true
        → is_empty (
            missing_if
              (not (Dict.has provider_components (provider_name p)))
              (Missing.tier_provider (provider_name p) t.name)
            ++ rest)
          ≡ true
    by_provider Provider.static rest h = h
    by_provider Provider.anthropic rest h = h
    by_provider Provider.ollama rest h = h
    by_provider Provider.openai rest h = h
