-- ===== src/Wiring/Contacts.antt =====
-- The addresses that a spec's components contact, said independently of the lists that the guard walks:
-- the base hosts as agent_runtime/runner.py builds URLs of them, the tool servers by their URLs.
use agent_keep.Base.{
  ℕ, suc, String, true, false, Option, none, some, ◌∷◌, ◌++◌, ◌≡◌, ◌⊎◌, In, codes, is_empty,
}
use agent_keep.Egress.Text.{Text, lower, all_digits, number_from}
use agent_keep.Egress.Rules.{NoColon}
use agent_keep.Spec.Intake.{slack, webex, SlackChannel, WebexChannel}
use agent_keep.Spec.Tools.{http, HttpTransport, McpServer}
use agent_keep.Spec.Providers.{
  Provider, OllamaProviderConfig, OpenAiProviderConfig, ModelTier, Models,
}
use agent_keep.Spec.Sections.{SpecSections}
use agent_keep.Spec.Validate.{UrlParts}

abbrev pub Address : Type 0
Address = Text × ℕ

-- A base host that names its port: `host:digits`.
abbrev pub NamesPort : String → Text → Text → Type 0
NamesPort base_host host digits =
    (codes base_host ≡ host ++ b':' ∷ digits) × (is_empty host ≡ false) × (all_digits digits ≡ true)

-- What a client contacts for the URL of a scheme's default port and a base host.
abbrev pub Dials : ℕ → String → Address → Type 0
Dials scheme_port base_host (host, port) =
    ((h : Text) × (digits : Text) × NamesPort base_host h digits
      × (lower h ≡ host)
      × (number_from 0 digits ≡ port))
    ⊎ (NoColon (codes base_host) × (lower (codes base_host) ≡ host) × (scheme_port ≡ port))

-- The port of a URL: its own, or the one of its scheme.
abbrev pub UrlPort : Option ℕ → String → ℕ → Type 0
UrlPort explicit scheme port =
    ((n : ℕ) × (explicit ≡ some (suc n)) × (suc n ≡ port))
    ⊎ ((explicit ≡ none) × (scheme ≡ "https") × (443 ≡ port))
    ⊎ ((explicit ≡ none) × (scheme ≡ "http") × (80 ≡ port))

-- A provider that the spec selects by default or in a tier.
abbrev pub Selects : {F : Type 0} → Models F → Provider → Type 0
Selects {F} m p = (m.provider ≡ p) ⊎ ((t : ModelTier F) × In t m.tiers × (t.provider ≡ p))

-- An address that a component of the spec contacts.
pub data Contacts {F : Type 0} (urlsplit : String → Option UrlParts) (s : SpecSections F)
    (a : Address) : Type 0 where
  webex_api :
      (c : WebexChannel)
      → In (webex c) s.channels
      → (codes "webexapis.com", 443) ≡ a
      → Contacts urlsplit s a
  slack_api :
      (c : SlackChannel)
      → In (slack c) s.channels
      → (codes "slack.com", 443) ≡ a
      → Contacts urlsplit s a
  anthropic_api :
      Selects s.models Provider.anthropic
      → (codes "api.anthropic.com", 443) ≡ a
      → Contacts urlsplit s a
  ollama_default :
      (c : OllamaProviderConfig F)
      → s.models.provider ≡ Provider.ollama
      → s.models.ollama ≡ some c
      → Dials 80 c.base_host a
      → Contacts urlsplit s a
  ollama_tier :
      (t : ModelTier F) (c : OllamaProviderConfig F)
      → In t s.models.tiers
      → t.provider ≡ Provider.ollama
      → t.ollama ≡ some c
      → Dials 80 c.base_host a
      → Contacts urlsplit s a
  openai_default :
      (c : OpenAiProviderConfig F)
      → s.models.provider ≡ Provider.openai
      → s.models.openai ≡ some c
      → Dials 443 c.base_host a
      → Contacts urlsplit s a
  openai_tier :
      (t : ModelTier F) (c : OpenAiProviderConfig F)
      → In t s.models.tiers
      → t.provider ≡ Provider.openai
      → t.openai ≡ some c
      → Dials 443 c.base_host a
      → Contacts urlsplit s a
  mcp_server :
      (server : McpServer) (t : HttpTransport) (parts : UrlParts) (p : Option ℕ) (host : String)
      (port : ℕ)
      → In server s.tools
      → server.transport ≡ http t
      → urlsplit t.url ≡ some parts
      → parts.port ≡ some p
      → parts.hostname ≡ some host
      → UrlPort p parts.scheme port
      → (lower (codes host), port) ≡ a
      → Contacts urlsplit s a

-- An Ollama server by an address with a port.
abbrev pub NamesOllamaPort : {F : Type 0} → OllamaProviderConfig F → Type 0
NamesOllamaPort c = (host : Text) × (digits : Text) × NamesPort c.base_host host digits

-- Every Ollama server of the spec names its port.
abbrev pub HasOllamaPorts : {F : Type 0} → Models F → Type 0
HasOllamaPorts {F} m =
    ((c : OllamaProviderConfig F) → m.ollama ≡ some c → NamesOllamaPort c)
    × ((t : ModelTier F) (c : OllamaProviderConfig F)
        → In t m.tiers
        → t.ollama ≡ some c
        → NamesOllamaPort c)
