-- ===== src/Spec/Providers.antt =====
-- keep_spec/models.py: model providers, tiers, budgets. `F` is Python's `float`.
use agent_keep.Base.{ℕ, String, Option, List}
use agent_keep.Router.Budget.{OnExceed}

pub data Provider : Type 0 where
  static anthropic ollama openai : Provider

pub record StaticProviderConfig : Type 0 where
  pub script : List String

module _ (F : Type 0) where
  pub record Pricing : Type 0 where
    pub usd_per_million_input_tokens : Option F
    pub usd_per_million_output_tokens : Option F

  pub record AnthropicProviderConfig : Type 0 where
    pub model : String
    pub api_key_env : String
    pub max_tokens : Option ℕ
    pub pricing : Option Pricing

  pub record OllamaProviderConfig : Type 0 where
    pub model : String
    pub base_host : String
    pub max_tokens : Option ℕ
    pub pricing : Option Pricing

  pub record OpenAiProviderConfig : Type 0 where
    pub model : String
    pub base_host : String
    pub api_key_env : String
    pub max_tokens : Option ℕ
    pub pricing : Option Pricing

  pub record ModelTier : Type 0 where
    pub name : String
    pub provider : Provider
    pub static : Option StaticProviderConfig
    pub anthropic : Option AnthropicProviderConfig
    pub ollama : Option OllamaProviderConfig
    pub openai : Option OpenAiProviderConfig

  pub record ModelBudgets : Type 0 where
    pub max_tokens_per_session : Option ℕ
    pub max_usd_per_session : Option F
    pub on_exceed : OnExceed

  pub record Models : Type 0 where
    pub provider : Provider
    pub static : Option StaticProviderConfig
    pub anthropic : Option AnthropicProviderConfig
    pub ollama : Option OllamaProviderConfig
    pub openai : Option OpenAiProviderConfig
    pub tiers : List ModelTier
    pub budgets : Option ModelBudgets

abbrev pub provider_name : Provider → String
provider_name Provider.static = "static"
provider_name Provider.anthropic = "anthropic"
provider_name Provider.ollama = "ollama"
provider_name Provider.openai = "openai"
