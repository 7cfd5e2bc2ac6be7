-- ===== src/Spec/Priced.antt =====
-- keep_spec/models.py: the validators of the model section. `F` is Python's `float`.
use agent_keep.Base.{
  String, Bool, true, false, not, ◌||◌, Option, none, some, List, [], ◌∷◌, ◌++◌, map, ok, is_empty,
  str_eq, contains, sort_names, duplicates, if◌then◌else◌,
}
use agent_keep.Spec.Check.{
  Site, default_site, tier_site, UnpricedPath, static_path, unpriced_path, Invalid, Verdict,
  refuse_if, ◌>>◌, each, optional,
}
use agent_keep.Spec.Providers.{
  Provider, StaticProviderConfig, Pricing, AnthropicProviderConfig, OllamaProviderConfig,
  OpenAiProviderConfig, ModelTier, ModelBudgets, Models, provider_name,
}
use agent_keep.Spec.Validate.{is_some, host_wellformed}

-- A config block that is there, by its provider's name.
abbrev pub block : String → Bool → List String
block name true = name ∷ []
block name false = []

-- `sorted(configured - {provider})`
unfoldable pub without_name : String → List String → List String
without_name name [] = []
without_name name (n ∷ ns) =
    let rest = without_name name ns in if str_eq n name then rest else n ∷ rest

-- The second half of `_check_provider_config`.
abbrev pub check_configured : Site → String → List String → Verdict
check_configured site provider names =
    refuse_if (not (contains names provider)) (Invalid.config_required site provider)
    >> refuse_if (not (is_empty (sort_names (without_name provider names))))
        (Invalid.config_unselected site (sort_names (without_name provider names)))

module _ {F : Type 0} where
  -- `_both_rates_present`
  unfoldable pub both_rates_present : Pricing F → Verdict
  both_rates_present p =
      refuse_if
        (not (is_some p.usd_per_million_input_tokens)
          || not (is_some p.usd_per_million_output_tokens))
        Invalid.rate_missing

  unfoldable pub anthropic_verdict : AnthropicProviderConfig F → Verdict
  anthropic_verdict c = optional both_rates_present c.pricing

  unfoldable pub ollama_verdict : OllamaProviderConfig F → Verdict
  ollama_verdict c = optional both_rates_present c.pricing >> host_wellformed c.base_host

  unfoldable pub openai_verdict : OpenAiProviderConfig F → Verdict
  openai_verdict c = optional both_rates_present c.pricing >> host_wellformed c.base_host

  -- The names of the config blocks that are there.
  abbrev pub configured :
      Option StaticProviderConfig
      → Option (AnthropicProviderConfig F)
      → Option (OllamaProviderConfig F)
      → Option (OpenAiProviderConfig F)
      → List String
  configured static anthropic ollama openai =
      block "static" (is_some static)
      ++ (block "anthropic" (is_some anthropic)
          ++ (block "ollama" (is_some ollama) ++ block "openai" (is_some openai)))

  -- `_check_provider_config`
  unfoldable pub check_provider_config :
      Site
      → Provider
      → Option StaticProviderConfig
      → Option (AnthropicProviderConfig F)
      → Option (OllamaProviderConfig F)
      → Option (OpenAiProviderConfig F)
      → Verdict
  check_provider_config site provider static anthropic ollama openai =
      check_configured site (provider_name provider) (configured static anthropic ollama openai)

  unfoldable pub configs_verdict :
      Option (AnthropicProviderConfig F)
      → Option (OllamaProviderConfig F)
      → Option (OpenAiProviderConfig F)
      → Verdict
  configs_verdict anthropic ollama openai =
      optional anthropic_verdict anthropic
      >> optional ollama_verdict ollama
      >> optional openai_verdict openai

  -- `ModelTier._config_matches_provider`, after the tier's fields.
  unfoldable pub tier_verdict : ModelTier F → Verdict
  tier_verdict tier =
      configs_verdict tier.anthropic tier.ollama tier.openai
      >> check_provider_config (tier_site tier.name) tier.provider tier.static tier.anthropic
          tier.ollama tier.openai

  abbrev pub tier_names : List (ModelTier F) → List String
  tier_names tiers = map (λ t. t.name) tiers

  -- `Models._config_matches_provider`
  unfoldable pub config_matches_provider : Models F → Verdict
  config_matches_provider m =
      check_provider_config default_site m.provider m.static m.anthropic m.ollama m.openai
      >> refuse_if (not (is_empty (duplicates (tier_names m.tiers))))
          (Invalid.duplicate_tiers (duplicates (tier_names m.tiers)))

  -- `config is not None and config.pricing is not None`
  abbrev pub is_priced : {C : Type 0} → (C → Option (Pricing F)) → Option C → Bool
  is_priced pricing none = false
  is_priced pricing (some c) = is_some (pricing c)

  -- `check` of `_usd_budget_requires_pricing`: what it appends.
  unfoldable pub unpriced_at :
      Site
      → Provider
      → Option (AnthropicProviderConfig F)
      → Option (OllamaProviderConfig F)
      → Option (OpenAiProviderConfig F)
      → List UnpricedPath
  unpriced_at site Provider.static anthropic ollama openai = static_path site ∷ []
  unpriced_at site Provider.anthropic anthropic ollama openai =
      if is_priced (λ c. c.pricing) anthropic then [] else unpriced_path site ∷ []
  unpriced_at site Provider.ollama anthropic ollama openai =
      if is_priced (λ c. c.pricing) ollama then [] else unpriced_path site ∷ []
  unpriced_at site Provider.openai anthropic ollama openai =
      if is_priced (λ c. c.pricing) openai then [] else unpriced_path site ∷ []

  unfoldable pub unpriced_tiers : List (ModelTier F) → List UnpricedPath
  unpriced_tiers [] = []
  unpriced_tiers (t ∷ ts) =
      unpriced_at (tier_site t.name) t.provider t.anthropic t.ollama t.openai ++ unpriced_tiers ts

  unfoldable pub unpriced : Models F → List UnpricedPath
  unpriced m =
      unpriced_at default_site m.provider m.anthropic m.ollama m.openai ++ unpriced_tiers m.tiers

  abbrev pub caps_usd : Option (ModelBudgets F) → Bool
  caps_usd none = false
  caps_usd (some b) = is_some b.max_usd_per_session

  -- `_usd_budget_requires_pricing`
  unfoldable pub usd_budget_requires_pricing : Models F → Verdict
  usd_budget_requires_pricing m =
      if caps_usd m.budgets
      then refuse_if (not (is_empty (unpriced m))) (Invalid.unpriced_paths (unpriced m))
      else ok tt

  unfoldable pub models_verdict : Models F → Verdict
  models_verdict m =
      configs_verdict m.anthropic m.ollama m.openai
      >> each tier_verdict m.tiers
      >> config_matches_provider m
      >> usd_budget_requires_pricing m
