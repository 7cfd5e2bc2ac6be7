-- ===== src/Wiring/Aimed.antt =====
-- The guard's targets of channels and model providers.
use agent_keep.Base.{
  ℕ, ◌+◌, some, List, [], ◌∷◌, ◌++◌, ◌≡◌, refl, ◌∙◌, inl, inr, Result, ok, err, In, In-append,
}
use mathlib.Core.Path.{subst}
use agent_keep.Spec.Check.{Site, tier_site}
use agent_keep.Spec.Intake.{Channel, slack, webex, SlackChannel, WebexChannel}
use agent_keep.Spec.Providers.{
  Provider, OllamaProviderConfig, OpenAiProviderConfig, ModelTier, Models,
}
use agent_keep.Wiring.Tables.{
  webex_api_host, webex_api_port, slack_api_host, slack_api_port, anthropic_api_host,
  anthropic_api_port, ollama_default_port, openai_default_port,
}
use agent_keep.Wiring.Targets.{
  WiringError, EgressTarget, ◌>>=◌, channel_targets, channel_egress_targets, anthropic_target,
  base_target, anthropic_tiers, provider_egress_targets, ollama_tiers, openai_tiers,
  ollama_egress_targets, openai_egress_targets,
}
use agent_keep.Wiring.Contacts.{Address, Selects}
use agent_keep.Wiring.Dialled.{address_of}

-- A target of a list at an address.
abbrev pub Aims : List EgressTarget → Address → Type 0
Aims ts a = (t : EgressTarget) × In t ts × ((t.host, t.port) ≡ a)

pub Aims-left : (ts us : List EgressTarget) (a : Address) → Aims ts a → Aims (ts ++ us) a
Aims-left ts us a (t, i, e) = (t, (In-append t ts us).1 (inl i), e)

pub Aims-right : (ts us : List EgressTarget) (a : Address) → Aims us a → Aims (ts ++ us) a
Aims-right ts us a (t, i, e) = (t, (In-append t ts us).1 (inr i), e)

pub Aims-cast : {ts us : List EgressTarget} (a : Address) → ts ≡ us → Aims ts a → Aims us a
Aims-cast a e (t, i, f) = (t, subst (In t) e i, f)

pub Aims-at : {a b : Address} (ts : List EgressTarget) → a ≡ b → Aims ts a → Aims ts b
Aims-at ts e (t, i, f) = (t, i, f ∙ e)

pub channel_targets-webex :
    (index : ℕ) (c : WebexChannel) (cs : List Channel)
    → In (webex c) cs
    → Aims (channel_egress_targets index cs) (webex_api_host, webex_api_port)
unfolding channel_egress_targets channel_targets
channel_targets-webex index c [] i = absurd i
channel_targets-webex index c (d ∷ cs) i = elim i [
  | inl e ↦ rw e (_, inl refl, refl)
  | inr t ↦ Aims-right (channel_targets index d) _ _ (channel_targets-webex (index + 1) c cs t)
]

pub channel_targets-slack :
    (index : ℕ) (c : SlackChannel) (cs : List Channel)
    → In (slack c) cs
    → Aims (channel_egress_targets index cs) (slack_api_host, slack_api_port)
unfolding channel_egress_targets channel_targets
channel_targets-slack index c [] i = absurd i
channel_targets-slack index c (d ∷ cs) i = elim i [
  | inl e ↦ rw e (_, inl refl, refl)
  | inr t ↦ Aims-right (channel_targets index d) _ _ (channel_targets-slack (index + 1) c cs t)
]

pub anthropic_target-some :
    (sites : List Site) (site : Site)
    → In site sites
    → Aims (anthropic_target sites) (anthropic_api_host, anthropic_api_port)
anthropic_target-some [] site i = absurd i
anthropic_target-some (x ∷ sites) site i = (_, inl refl, refl)

pub anthropic_tiers-In :
    {F : Type 0} (t : ModelTier F) (ts : List (ModelTier F))
    → In t ts
    → t.provider ≡ Provider.anthropic
    → In (tier_site t.name) (anthropic_tiers ts)
unfolding anthropic_tiers
anthropic_tiers-In t [] i e = absurd i
anthropic_tiers-In t (u ∷ ts) i e = elim i [
  | inl q ↦ rw (q, e) (inl refl)
  | inr r ↦
      (In-append (tier_site t.name) _ (anthropic_tiers ts)).1 (inr (anthropic_tiers-In t ts r e))
]

pub provider_targets-anthropic :
    {F : Type 0} (m : Models F)
    → Selects m Provider.anthropic
    → Aims (provider_egress_targets m) (anthropic_api_host, anthropic_api_port)
unfolding provider_egress_targets
provider_targets-anthropic m (inl e) = rw e (_, inl refl, refl)
provider_targets-anthropic m (inr (t, i, e)) = anthropic_target-some _ (tier_site t.name) (
    (In-append (tier_site t.name) _ (anthropic_tiers m.tiers)).1
      (inr (anthropic_tiers-In t m.tiers i e)))

pub ollama_tiers-Aims :
    {F : Type 0} (t : ModelTier F) (c : OllamaProviderConfig F) (ts : List (ModelTier F))
    → In t ts
    → t.provider ≡ Provider.ollama
    → t.ollama ≡ some c
    → Aims (ollama_tiers ts) (address_of ollama_default_port c.base_host)
unfolding ollama_tiers base_target
ollama_tiers-Aims t c [] i e f = absurd i
ollama_tiers-Aims t c (u ∷ ts) i e f = elim i [
  | inl q ↦ rw (q, e, f) (_, inl refl, refl)
  | inr r ↦ Aims-right _ (ollama_tiers ts) _ (ollama_tiers-Aims t c ts r e f)
]

pub openai_tiers-Aims :
    {F : Type 0} (t : ModelTier F) (c : OpenAiProviderConfig F) (ts : List (ModelTier F))
    → In t ts
    → t.provider ≡ Provider.openai
    → t.openai ≡ some c
    → Aims (openai_tiers ts) (address_of openai_default_port c.base_host)
unfolding openai_tiers base_target
openai_tiers-Aims t c [] i e f = absurd i
openai_tiers-Aims t c (u ∷ ts) i e f = elim i [
  | inl q ↦ rw (q, e, f) (_, inl refl, refl)
  | inr r ↦ Aims-right _ (openai_tiers ts) _ (openai_tiers-Aims t c ts r e f)
]

pub ollama_targets-tier :
    {F : Type 0} (m : Models F) (a : Address)
    → Aims (ollama_tiers m.tiers) a
    → Aims (ollama_egress_targets m) a
unfolding ollama_egress_targets
ollama_targets-tier m a x = Aims-right _ (ollama_tiers m.tiers) a x

pub ollama_targets-default :
    {F : Type 0} (m : Models F) (c : OllamaProviderConfig F)
    → m.provider ≡ Provider.ollama
    → m.ollama ≡ some c
    → Aims (ollama_egress_targets m) (address_of ollama_default_port c.base_host)
unfolding ollama_egress_targets base_target
ollama_targets-default m c e f = rw (e, f) (_, inl refl, refl)

pub openai_targets-tier :
    {F : Type 0} (m : Models F) (a : Address)
    → Aims (openai_tiers m.tiers) a
    → Aims (openai_egress_targets m) a
unfolding openai_egress_targets
openai_targets-tier m a x = Aims-right _ (openai_tiers m.tiers) a x

pub openai_targets-default :
    {F : Type 0} (m : Models F) (c : OpenAiProviderConfig F)
    → m.provider ≡ Provider.openai
    → m.openai ≡ some c
    → Aims (openai_egress_targets m) (address_of openai_default_port c.base_host)
unfolding openai_egress_targets base_target
openai_targets-default m c e f = rw (e, f) (_, inl refl, refl)

pub bind-ok :
    {A B : Type 0} (r : Result WiringError A) (f : A → Result WiringError B) (b : B)
    → (r >>= f) ≡ ok b
    → (x : A) × (r ≡ ok x) × (f x ≡ ok b)
unfolding ◌>>=◌
bind-ok (ok x) f b h = (x, refl, h)
bind-ok (err e) f b h = absurd (cc h)
