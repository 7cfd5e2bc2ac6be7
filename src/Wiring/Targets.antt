-- ===== src/Wiring/Targets.antt =====
-- agent_runtime/wiring.py: the hosts that a spec's components have to reach, and those of them that
-- `sandbox.egress` does not cover. `urlsplit` is Python's, over validated specs: a base host's port is
-- one to five digits. `_egress_entry_allows` is the matcher of Egress/Match.
use agent_keep.Base.{
  ℕ, ◌+◌, String, Bool, true, false, Option, none, some, List, [], ◌∷◌, ◌++◌, map, Result, ok, err,
  is_empty, str_eq, codes, if◌then◌else◌, ◌==◌,
}
use agent_keep.Egress.Text.{Text, lower, number_from}
use agent_keep.Egress.Match.{rpartition, chomp, egress_entry_allows}
use agent_keep.Spec.Check.{Site, default_site, tier_site}
use agent_keep.Spec.Intake.{Channel, dev_http, discord, slack, webex, sms}
use agent_keep.Spec.Tools.{McpTransport, stdio, http, local, McpServer}
use agent_keep.Spec.Providers.{
  Provider, OllamaProviderConfig, OpenAiProviderConfig, ModelTier, Models,
}
use agent_keep.Spec.Sections.{SpecSections}
use agent_keep.Spec.Validate.{UrlParts}
use agent_keep.Wiring.Tables.{
  webex_api_host, webex_api_port, slack_api_host, slack_api_port, anthropic_api_host,
  anthropic_api_port, ollama_default_port, openai_default_port,
}
use agent_keep.Wiring.Guards.{Missing}

-- The component that a violation's message names.
pub data Violation : Type 0 where
  mcp_server : String → Violation
  webex_reply slack_reply : ℕ → Violation
  anthropic_api : List Site → Violation
  ollama_server openai_api : Site → Violation

-- Why a spec is not built. `bad_url` is the `ValueError` of `urlsplit` or of a port, `key_error` that
-- of a table without the key.
pub data WiringError : Type 0 where
  component_not_implemented : List Missing → WiringError
  egress_cross_validation : List Violation → WiringError
  bad_url key_error : String → WiringError

-- `_EgressTarget`
pub record EgressTarget : Type 0 where
  pub host : Text
  pub port : ℕ
  pub violation : Violation

infixl 5 ◌>>=◌
unfoldable pub ◌>>=◌ :
    {A B : Type 0} → Result WiringError A → (A → Result WiringError B) → Result WiringError B
ok a >>= f = f a
err e >>= f = err e

abbrev pub host_or_empty : Option String → String
host_or_empty none = ""
host_or_empty (some h) = h

-- `parts.port or (443 if parts.scheme == "https" else 80)`
abbrev pub port_or_default : Option ℕ → String → ℕ
port_or_default none scheme = if str_eq scheme "https" then 443 else 80
port_or_default (some p) scheme = if p == 0 then if str_eq scheme "https" then 443 else 80 else p

abbrev pub with_port : String → UrlParts → Option (Option ℕ) → Result WiringError EgressTarget
with_port server parts none = err (WiringError.bad_url server)
with_port server parts (some p) = ok (record {
  host = lower (codes (host_or_empty parts.hostname));
  port = port_or_default p parts.scheme;
  violation = Violation.mcp_server server;
})

abbrev pub with_parts : String → Option UrlParts → Result WiringError EgressTarget
with_parts server none = err (WiringError.bad_url server)
with_parts server (some parts) = with_port server parts parts.port

-- One turn of the loop of `_mcp_egress_targets`.
unfoldable pub server_targets :
    (String → Option UrlParts) → String → McpTransport → Result WiringError (List EgressTarget)
server_targets urlsplit server (stdio t) = ok []
server_targets urlsplit server (http t) =
    with_parts server (urlsplit t.url) >>= λ target. ok (target ∷ [])
server_targets urlsplit server local = ok []

unfoldable pub mcp_egress_targets :
    (String → Option UrlParts) → List McpServer → Result WiringError (List EgressTarget)
mcp_egress_targets urlsplit [] = ok []
mcp_egress_targets urlsplit (s ∷ ss) = do
  targets ← server_targets urlsplit s.name s.transport
  rest ← mcp_egress_targets urlsplit ss
  ok (targets ++ rest)

unfoldable pub channel_targets : ℕ → Channel → List EgressTarget
channel_targets index (dev_http c) = []
channel_targets index (discord c) = []
channel_targets index (slack c) =
    record { host = slack_api_host; port = slack_api_port; violation = Violation.slack_reply index }
    ∷ []
channel_targets index (webex c) =
    record { host = webex_api_host; port = webex_api_port; violation = Violation.webex_reply index }
    ∷ []
channel_targets index (sms c) = []

unfoldable pub channel_egress_targets : ℕ → List Channel → List EgressTarget
channel_egress_targets index [] = []
channel_egress_targets index (c ∷ cs) =
    channel_targets index c ++ channel_egress_targets (index + 1) cs

abbrev pub is_anthropic : Provider → Bool
is_anthropic Provider.static = false
is_anthropic Provider.anthropic = true
is_anthropic Provider.ollama = false
is_anthropic Provider.openai = false

abbrev pub is_ollama : Provider → Bool
is_ollama Provider.static = false
is_ollama Provider.anthropic = false
is_ollama Provider.ollama = true
is_ollama Provider.openai = false

abbrev pub is_openai : Provider → Bool
is_openai Provider.static = false
is_openai Provider.anthropic = false
is_openai Provider.ollama = false
is_openai Provider.openai = true

-- One target for all the sites.
abbrev pub anthropic_target : List Site → List EgressTarget
anthropic_target [] = []
anthropic_target (site ∷ sites) =
    record {
      host = anthropic_api_host;
      port = anthropic_api_port;
      violation = Violation.anthropic_api (site ∷ sites);
    }
    ∷ []

-- `config.baseHost.rpartition(":")` and what becomes of it.
abbrev pub base_address : ℕ → Text → Option (Text × Text) → Text × ℕ
base_address default host none = (lower host, default)
base_address default host (some (before, after)) =
    if is_empty before then (lower host, default) else (lower before, number_from 0 (chomp after))

unfoldable pub base_target : ℕ → Violation → String → EgressTarget
base_target default violation base_host =
    let (host, port) = base_address default (codes base_host) (rpartition (codes base_host)) in
    record { host = host; port = port; violation = violation }

module _ {F : Type 0} where
  -- The tiers that select the anthropic provider.
  unfoldable pub anthropic_tiers : List (ModelTier F) → List Site
  anthropic_tiers [] = []
  anthropic_tiers (t ∷ ts) =
      (if is_anthropic t.provider then tier_site t.name ∷ [] else []) ++ anthropic_tiers ts

  -- `_provider_egress_targets`
  unfoldable pub provider_egress_targets : Models F → List EgressTarget
  provider_egress_targets m =
      anthropic_target
        ((if is_anthropic m.provider then default_site ∷ [] else []) ++ anthropic_tiers m.tiers)

  abbrev pub ollama_config : Site → Option (OllamaProviderConfig F) → List EgressTarget
  ollama_config site none = []
  ollama_config site (some c) =
      base_target ollama_default_port (Violation.ollama_server site) c.base_host ∷ []

  abbrev pub openai_config : Site → Option (OpenAiProviderConfig F) → List EgressTarget
  openai_config site none = []
  openai_config site (some c) =
      base_target openai_default_port (Violation.openai_api site) c.base_host ∷ []

  unfoldable pub ollama_tiers : List (ModelTier F) → List EgressTarget
  ollama_tiers [] = []
  ollama_tiers (t ∷ ts) =
      (if is_ollama t.provider then ollama_config (tier_site t.name) t.ollama else [])
      ++ ollama_tiers ts

  unfoldable pub openai_tiers : List (ModelTier F) → List EgressTarget
  openai_tiers [] = []
  openai_tiers (t ∷ ts) =
      (if is_openai t.provider then openai_config (tier_site t.name) t.openai else [])
      ++ openai_tiers ts

  -- `_ollama_egress_targets`
  unfoldable pub ollama_egress_targets : Models F → List EgressTarget
  ollama_egress_targets m =
      ollama_config default_site (if is_ollama m.provider then m.ollama else none)
      ++ ollama_tiers m.tiers

  -- `_openai_egress_targets`
  unfoldable pub openai_egress_targets : Models F → List EgressTarget
  openai_egress_targets m =
      openai_config default_site (if is_openai m.provider then m.openai else none)
      ++ openai_tiers m.tiers

  -- The targets of `egress_violations`.
  unfoldable pub egress_targets :
      (String → Option UrlParts) → SpecSections F → Result WiringError (List EgressTarget)
  egress_targets urlsplit s = mcp_egress_targets urlsplit s.tools >>= λ mcp. ok (
      mcp
      ++ (channel_egress_targets 0 s.channels
          ++ (provider_egress_targets s.models
              ++ (ollama_egress_targets s.models ++ openai_egress_targets s.models))))

-- `any(_egress_entry_allows(entry, host, port) for entry in egress)`
unfoldable pub any_allows : List Text → Text → ℕ → Bool
any_allows [] host port = false
any_allows (entry ∷ entries) host port =
    let rest = any_allows entries host port in
    if egress_entry_allows entry host port then true else rest

-- `_violations_for`
unfoldable pub violations_for : List EgressTarget → List Text → List Violation
violations_for [] egress = []
violations_for (t ∷ ts) egress =
    let rest = violations_for ts egress in
    if any_allows egress t.host t.port then rest else t.violation ∷ rest

-- `sandbox.egress` as the matcher reads it.
abbrev pub entries : List String → List Text
entries egress = map codes egress

unfoldable pub mcp_egress_violations :
    {F : Type 0} → (String → Option UrlParts) → SpecSections F → Result WiringError (List Violation)
mcp_egress_violations urlsplit s = mcp_egress_targets urlsplit s.tools >>= λ targets.
    ok (violations_for targets (entries s.sandbox.egress))

unfoldable pub egress_violations :
    {F : Type 0} → (String → Option UrlParts) → SpecSections F → Result WiringError (List Violation)
egress_violations urlsplit s =
    egress_targets urlsplit s >>= λ targets. ok (violations_for targets (entries s.sandbox.egress))
