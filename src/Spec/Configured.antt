-- ===== src/Spec/Configured.antt =====
-- What the validators of the model section accept.
use agent_keep.Base.{
  String, true, not, ◌||◌, Option, none, some, List, [], ◌∷◌, ◌≡◌, ◌≢◌, ◌↔◌, refl, arith, is_empty,
  is_empty-append, contains, sort_names, All, Unique, is_empty-sort_names, Bool-cases,
  if◌then◌else◌, eq_of_some, Option-cases, inl, inr, ap,
}
use agent_keep.Spec.Check.{
  passes, Site, tier_site, default_site, UnpricedPath, Invalid, Accepts, Optionally, refuse_if,
  each_iff, optional_iff, both_iff,
}
use agent_keep.Spec.Providers.{
  Provider, StaticProviderConfig, Pricing, AnthropicProviderConfig, OllamaProviderConfig,
  OpenAiProviderConfig, ModelTier, Models, provider_name,
}
use agent_keep.Spec.Validate.{is_some}
use agent_keep.Spec.Sound.{IsEntry, host_wellformed_iff, no_duplicates_iff}
use agent_keep.Spec.Priced.{
  without_name, both_rates_present, anthropic_verdict, ollama_verdict, openai_verdict, configured,
  check_configured, check_provider_config, configs_verdict, tier_verdict, tier_names,
  config_matches_provider, is_priced, unpriced_at, unpriced_tiers, unpriced, caps_usd,
  usd_budget_requires_pricing, models_verdict,
}

empty_sorted :
    (names : List String) (e : Invalid)
    → Accepts (refuse_if (not (is_empty (sort_names names))) e) ↔ (is_empty names ≡ true)
empty_sorted names e = rw (is_empty-sort_names names) (passes (is_empty names) e)

check_configured_iff :
    (site : Site) (name : String) (names : List String)
    → Accepts (check_configured site name names)
      ↔ ((contains names name ≡ true) × (is_empty (without_name name names) ≡ true))
check_configured_iff site name names =
    both_iff _ _ (passes (contains names name) _) (empty_sorted (without_name name names) _)

module _ {F : Type 0} where
  -- The block of the selected provider, and no other.
  abbrev pub IsConfigured :
      Provider
      → Option StaticProviderConfig
      → Option (AnthropicProviderConfig F)
      → Option (OllamaProviderConfig F)
      → Option (OpenAiProviderConfig F)
      → Type 0
  IsConfigured Provider.static s a l o = (s ≢ none) × (a ≡ none) × (l ≡ none) × (o ≡ none)
  IsConfigured Provider.anthropic s a l o = (s ≡ none) × (a ≢ none) × (l ≡ none) × (o ≡ none)
  IsConfigured Provider.ollama s a l o = (s ≡ none) × (a ≡ none) × (l ≢ none) × (o ≡ none)
  IsConfigured Provider.openai s a l o = (s ≡ none) × (a ≡ none) × (l ≡ none) × (o ≢ none)

  -- A pricing block that is there.
  abbrev pub HasPricing : Option (Pricing F) → Type 0
  HasPricing o = (p : Pricing F) × (o ≡ some p)

  abbrev pub ChargesBy : {C : Type 0} → (C → Option (Pricing F)) → Option C → Type 0
  ChargesBy {C} pricing o = (c : C) × (o ≡ some c) × HasPricing (pricing c)

  abbrev pub IsPriced :
      Provider
      → Option (AnthropicProviderConfig F)
      → Option (OllamaProviderConfig F)
      → Option (OpenAiProviderConfig F)
      → Type 0
  IsPriced Provider.static a l o = ⊥
  IsPriced Provider.anthropic a l o = ChargesBy (λ c. c.pricing) a
  IsPriced Provider.ollama a l o = ChargesBy (λ c. c.pricing) l
  IsPriced Provider.openai a l o = ChargesBy (λ c. c.pricing) o

  abbrev pub IsPricing : Pricing F → Type 0
  IsPricing p = (p.usd_per_million_input_tokens ≢ none) × (p.usd_per_million_output_tokens ≢ none)

  flags_iff :
      (provider : Provider) (s : Option StaticProviderConfig)
      (a : Option (AnthropicProviderConfig F)) (l : Option (OllamaProviderConfig F))
      (o : Option (OpenAiProviderConfig F))
      → ((contains (configured s a l o) (provider_name provider) ≡ true)
          × (is_empty (without_name (provider_name provider) (configured s a l o)) ≡ true))
        ↔ IsConfigured provider s a l o
  unfolding contains without_name
  flags_iff Provider.static none none none none = (λ (x, y). absurd (cc x), λ h. absurd (h.0 refl))
  flags_iff p s a l o = grind arith

  -- The selected provider has its config block, and no other has one.
  pub check_provider_config_iff :
      (site : Site) (provider : Provider) (s : Option StaticProviderConfig)
      (a : Option (AnthropicProviderConfig F)) (l : Option (OllamaProviderConfig F))
      (o : Option (OpenAiProviderConfig F))
      → Accepts (check_provider_config site provider s a l o) ↔ IsConfigured provider s a l o
  unfolding check_provider_config
  check_provider_config_iff site provider s a l o =
      let b = check_configured_iff site (provider_name provider) (configured s a l o) in
      let f = flags_iff provider s a l o in (λ h. f.0 (b.0 h), λ h. b.1 (f.1 h))

  both_rates_present_iff : (p : Pricing F) → Accepts (both_rates_present p) ↔ IsPricing p
  unfolding both_rates_present refuse_if
  both_rates_present_iff p = by_rates p.usd_per_million_input_tokens p.usd_per_million_output_tokens
    where
      by_rates :
          (i o : Option F)
          → Accepts (refuse_if (not (is_some i) || not (is_some o)) Invalid.rate_missing)
            ↔ ((i ≢ none) × (o ≢ none))
      by_rates none o = (λ h. absurd (cc h), λ h. absurd (h.0 refl))
      by_rates (some x) none = (λ h. absurd (cc h), λ h. absurd (h.1 refl))
      by_rates (some x) (some y) = (λ h. (λ q. cc, λ q. cc), λ h. refl)

  abbrev pub IsAnthropic : AnthropicProviderConfig F → Type 0
  IsAnthropic c = Optionally IsPricing c.pricing

  abbrev pub IsOllama : OllamaProviderConfig F → Type 0
  IsOllama c = Optionally IsPricing c.pricing × IsEntry c.base_host

  abbrev pub IsOpenAi : OpenAiProviderConfig F → Type 0
  IsOpenAi c = Optionally IsPricing c.pricing × IsEntry c.base_host

  anthropic_verdict_iff :
      (c : AnthropicProviderConfig F) → Accepts (anthropic_verdict c) ↔ IsAnthropic c
  unfolding anthropic_verdict
  anthropic_verdict_iff c =
      optional_iff IsPricing both_rates_present both_rates_present_iff c.pricing

  ollama_verdict_iff : (c : OllamaProviderConfig F) → Accepts (ollama_verdict c) ↔ IsOllama c
  unfolding ollama_verdict
  ollama_verdict_iff c =
      both_iff _ _ (optional_iff IsPricing both_rates_present both_rates_present_iff c.pricing)
        (host_wellformed_iff c.base_host)

  openai_verdict_iff : (c : OpenAiProviderConfig F) → Accepts (openai_verdict c) ↔ IsOpenAi c
  unfolding openai_verdict
  openai_verdict_iff c =
      both_iff _ _ (optional_iff IsPricing both_rates_present both_rates_present_iff c.pricing)
        (host_wellformed_iff c.base_host)

  -- Config blocks whose rates and hosts are in order.
  abbrev pub AreConfigs :
      Option (AnthropicProviderConfig F)
      → Option (OllamaProviderConfig F)
      → Option (OpenAiProviderConfig F)
      → Type 0
  AreConfigs a l o = Optionally IsAnthropic a × (Optionally IsOllama l × Optionally IsOpenAi o)

  configs_verdict_iff :
      (a : Option (AnthropicProviderConfig F)) (l : Option (OllamaProviderConfig F))
      (o : Option (OpenAiProviderConfig F))
      → Accepts (configs_verdict a l o) ↔ AreConfigs a l o
  unfolding configs_verdict
  configs_verdict_iff a l o =
      both_iff _ _ (optional_iff IsAnthropic anthropic_verdict anthropic_verdict_iff a) (
        both_iff _ _ (optional_iff IsOllama ollama_verdict ollama_verdict_iff l)
          (optional_iff IsOpenAi openai_verdict openai_verdict_iff o))

  abbrev pub IsTier : ModelTier F → Type 0
  IsTier t =
      AreConfigs t.anthropic t.ollama t.openai
      × IsConfigured t.provider t.static t.anthropic t.ollama t.openai

  tier_verdict_iff : (t : ModelTier F) → Accepts (tier_verdict t) ↔ IsTier t
  unfolding tier_verdict
  tier_verdict_iff t = both_iff _ _ (configs_verdict_iff t.anthropic t.ollama t.openai) (
      check_provider_config_iff (tier_site t.name) t.provider t.static t.anthropic t.ollama
        t.openai)

  abbrev pub IsPricedTier : ModelTier F → Type 0
  IsPricedTier t = IsPriced t.provider t.anthropic t.ollama t.openai

  is_priced_iff :
      {C : Type 0} (pricing : C → Option (Pricing F)) (path : UnpricedPath) (o : Option C)
      → (is_empty (if is_priced pricing o then [] else path ∷ []) ≡ true) ↔ ChargesBy pricing o
  is_priced_iff pricing path none = (λ h. absurd (cc h), λ (c, q, h). absurd (cc q))
  is_priced_iff pricing path (some c) = elim (Option-cases (pricing c)) [
    | inl e ↦
        rw e (λ h. absurd (cc h), λ (d, q, (p, r)). absurd (cc (r, e, ap pricing (eq_of_some q))))
    | inr (p, e) ↦ rw e (λ h. (c, refl, (p, e)), λ h. refl)
  ]

  unpriced_at_iff :
      (site : Site) (provider : Provider) (a : Option (AnthropicProviderConfig F))
      (l : Option (OllamaProviderConfig F)) (o : Option (OpenAiProviderConfig F))
      → (is_empty (unpriced_at site provider a l o) ≡ true) ↔ IsPriced provider a l o
  unfolding unpriced_at
  unpriced_at_iff site Provider.static a l o = (λ h. cc, λ h. absurd h)
  unpriced_at_iff site Provider.anthropic a l o = is_priced_iff (λ c. c.pricing) _ a
  unpriced_at_iff site Provider.ollama a l o = is_priced_iff (λ c. c.pricing) _ l
  unpriced_at_iff site Provider.openai a l o = is_priced_iff (λ c. c.pricing) _ o

  unpriced_tiers_iff :
      (ts : List (ModelTier F)) → (is_empty (unpriced_tiers ts) ≡ true) ↔ All IsPricedTier ts
  unfolding unpriced_tiers
  unpriced_tiers_iff [] = (λ h. tt, λ h. refl)
  unpriced_tiers_iff (t ∷ ts) =
      let b =
        is_empty-append (unpriced_at (tier_site t.name) t.provider t.anthropic t.ollama t.openai)
          (unpriced_tiers ts) in
      let p = unpriced_at_iff (tier_site t.name) t.provider t.anthropic t.ollama t.openai in
      let ih = unpriced_tiers_iff ts in
      (λ h. (p.0 (b.0 h).0, ih.0 (b.0 h).1), λ h. b.1 (p.1 h.0, ih.1 h.1))

  -- Every path that a call may take has its price.
  abbrev pub IsPricedThrough : Models F → Type 0
  IsPricedThrough m = IsPriced m.provider m.anthropic m.ollama m.openai × All IsPricedTier m.tiers

  unpriced_iff : (m : Models F) → (is_empty (unpriced m) ≡ true) ↔ IsPricedThrough m
  unfolding unpriced
  unpriced_iff m =
      let b =
        is_empty-append (unpriced_at default_site m.provider m.anthropic m.ollama m.openai)
          (unpriced_tiers m.tiers) in
      let p = unpriced_at_iff default_site m.provider m.anthropic m.ollama m.openai in
      let q = unpriced_tiers_iff m.tiers in
      (λ h. (p.0 (b.0 h).0, q.0 (b.0 h).1), λ h. b.1 (p.1 h.0, q.1 h.1))

  -- A ceiling in USD that can be enforced.
  abbrev pub IsEnforceable : Models F → Type 0
  IsEnforceable m = caps_usd m.budgets ≡ true → IsPricedThrough m

  usd_budget_requires_pricing_iff :
      (m : Models F) → Accepts (usd_budget_requires_pricing m) ↔ IsEnforceable m
  unfolding usd_budget_requires_pricing
  usd_budget_requires_pricing_iff m =
      let u = unpriced_iff m in
      let p = passes (is_empty (unpriced m)) (Invalid.unpriced_paths (unpriced m)) in
      elim (Bool-cases (caps_usd m.budgets)) [
        | inl y ↦ rw y (λ h c. u.0 (p.0 h), λ h. p.1 (u.1 (h refl)))
        | inr n ↦ rw n (λ h c. absurd (cc c), λ h. refl)
      ]

  abbrev pub AreModels : Models F → Type 0
  AreModels m =
      AreConfigs m.anthropic m.ollama m.openai
      × (All IsTier m.tiers
          × ((IsConfigured m.provider m.static m.anthropic m.ollama m.openai
                × Unique (tier_names m.tiers))
              × IsEnforceable m))

  pub models_verdict_iff : (m : Models F) → Accepts (models_verdict m) ↔ AreModels m
  unfolding models_verdict config_matches_provider
  models_verdict_iff m = both_iff _ _ (configs_verdict_iff m.anthropic m.ollama m.openai) (
      both_iff _ _ (each_iff IsTier tier_verdict tier_verdict_iff m.tiers) (
        both_iff _ _
          (both_iff _ _
            (check_provider_config_iff default_site m.provider m.static m.anthropic m.ollama
              m.openai)
            (no_duplicates_iff (tier_names m.tiers) _))
          (usd_budget_requires_pricing_iff m)))
