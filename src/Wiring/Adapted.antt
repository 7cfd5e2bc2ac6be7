-- ===== src/Wiring/Adapted.antt =====
-- Channels, triggers and gateway: what `unimplemented_selections` reports nothing about.
use agent_keep.Base.{
  ℕ, ◌+◌, true, Option, none, some, List, [], ◌∷◌, ◌≡◌, ◌≢◌, ◌↔◌, refl, is_empty, both_empty,
  contains, All,
}
use agent_keep.Base.Dict
use agent_keep.Gateway.Gate.{GatewayAllowlist, Policy, policy_name}
use agent_keep.Spec.Check.{Optionally}
use agent_keep.Spec.Intake.{
  Activation, message_trigger, schedule_trigger, event_trigger, Triggers, Method, Channel, dev_http,
  discord, slack, webex, sms, SlackTransport, Queue, Concurrency, Unification,
}
use agent_keep.Spec.State.{SessionMode, Sink}
use agent_keep.Spec.Providers.{Provider}
use agent_keep.Wiring.Tables.{
  channel_components, queue_components, session_components, provider_components, audit_components,
  allowlist_policies, buildable_trigger_kinds,
}
use agent_keep.Wiring.Guards.{
  Missing, is_signature, is_webhook, channel_missing, channels_missing, activations_missing,
  triggers_missing, queue_missing, is_serial, allowlist_missing, is_separate, mode_missing,
  provider_missing, sink_missing,
}
use agent_keep.Wiring.Reports.{buildable_iff, guarded_iff, optional_missing_iff}

-- A channel with an adapter, under the posture that the adapter enforces.
abbrev pub IsAdapted : Channel → Type 0
IsAdapted (dev_http c) = Unit
IsAdapted (discord c) = ⊥
IsAdapted (slack c) =
    (c.transport ≡ SlackTransport.webhook) × (c.verification.method ≡ Method.signature)
IsAdapted (webex c) = c.verification.method ≡ Method.signature
IsAdapted (sms c) = ⊥

pub is_signature_iff : (m : Method) → (is_signature m ≡ true) ↔ (m ≡ Method.signature)
is_signature_iff Method.signature = (λ h. refl, λ h. refl)
is_signature_iff Method.token = (λ h. cc, λ h. cc)
is_signature_iff Method.unverified = (λ h. cc, λ h. cc)

pub is_webhook_iff : (t : SlackTransport) → (is_webhook t ≡ true) ↔ (t ≡ SlackTransport.webhook)
is_webhook_iff SlackTransport.webhook = (λ h. refl, λ h. refl)
is_webhook_iff SlackTransport.websocket = (λ h. cc, λ h. cc)
is_webhook_iff SlackTransport.polling = (λ h. cc, λ h. cc)

pub channel_missing_iff :
    (index : ℕ) (c : Channel) → (is_empty (channel_missing index c) ≡ true) ↔ IsAdapted c
unfolding channel_missing channel_components Dict.get
channel_missing_iff index (dev_http c) = (λ h. tt, λ h. refl)
channel_missing_iff index (discord c) = (λ h. cc, λ h. absurd h)
channel_missing_iff index (slack c) =
    guarded_iff (is_webhook c.transport) (Missing.slack_transport c.transport index) _
      (is_webhook_iff c.transport)
      (buildable_iff (is_signature c.verification.method)
        (Missing.slack_verification c.verification.method index)
        (is_signature_iff c.verification.method))
channel_missing_iff index (webex c) =
    buildable_iff (is_signature c.verification.method) _ (is_signature_iff c.verification.method)
channel_missing_iff index (sms c) = (λ h. cc, λ h. absurd h)

pub channels_missing_iff :
    (index : ℕ) (cs : List Channel)
    → (is_empty (channels_missing index cs) ≡ true) ↔ All IsAdapted cs
unfolding channels_missing
channels_missing_iff index [] = (λ h. tt, λ h. refl)
channels_missing_iff index (c ∷ cs) =
    both_empty (channel_missing index c) (channels_missing (index + 1) cs)
      (channel_missing_iff index c) (channels_missing_iff (index + 1) cs)

pub activations_missing_none : (a : List Activation) → is_empty (activations_missing a) ≡ true
unfolding activations_missing buildable_trigger_kinds contains
activations_missing_none [] = refl
activations_missing_none (message_trigger ∷ rest) = activations_missing_none rest
activations_missing_none (schedule_trigger t ∷ rest) = activations_missing_none rest
activations_missing_none (event_trigger t ∷ rest) = activations_missing_none rest

pub triggers_missing_none : (o : Option Triggers) → is_empty (triggers_missing o) ≡ true
triggers_missing_none none = refl
triggers_missing_none (some t) = activations_missing_none t.activations

pub policy_iff :
    (p : Policy) → (contains allowlist_policies (policy_name p) ≡ true) ↔ (p ≢ Policy.pairing)
unfolding contains allowlist_policies
policy_iff Policy.owner_only = (λ h q. cc, λ h. refl)
policy_iff Policy.pairing = (λ h. cc, λ n. absurd (n refl))
policy_iff Policy.tiered = (λ h q. cc, λ h. refl)

abbrev pub IsEnforced : GatewayAllowlist → Type 0
IsEnforced a = a.policy ≢ Policy.pairing

pub allowlist_missing_iff :
    (o : Option GatewayAllowlist)
    → (is_empty (allowlist_missing o) ≡ true) ↔ Optionally IsEnforced o
allowlist_missing_iff o =
    optional_missing_iff IsEnforced allowlist_missing refl
      (λ a.
        buildable_iff (contains allowlist_policies (policy_name a.policy)) _ (policy_iff a.policy))
      o

pub queue_missing_none : (q : Queue) → is_empty (queue_missing q) ≡ true
unfolding queue_missing queue_components Dict.get
queue_missing_none Queue.in_process = refl
queue_missing_none Queue.redis = refl

pub mode_missing_none : (m : SessionMode) → is_empty (mode_missing m) ≡ true
unfolding mode_missing session_components Dict.get
mode_missing_none SessionMode.single = refl

pub sink_missing_none : (s : Sink) → is_empty (sink_missing s) ≡ true
unfolding sink_missing audit_components Dict.get
sink_missing_none Sink.jsonl = refl

pub provider_missing_none : (p : Provider) → is_empty (provider_missing p) ≡ true
unfolding provider_missing provider_components Dict.get
provider_missing_none Provider.static = refl
provider_missing_none Provider.anthropic = refl
provider_missing_none Provider.ollama = refl
provider_missing_none Provider.openai = refl

pub serial_iff : (c : Concurrency) → (is_serial c ≡ true) ↔ (c ≡ Concurrency.serial)
serial_iff Concurrency.serial = (λ h. refl, λ h. refl)
serial_iff Concurrency.concurrent_locked = (λ h. cc, λ h. cc)

pub separate_iff : (u : Unification) → (is_separate u ≡ true) ↔ (u ≡ Unification.separate)
separate_iff Unification.manual_link = (λ h. cc, λ h. cc)
separate_iff Unification.challenge = (λ h. cc, λ h. cc)
separate_iff Unification.separate = (λ h. refl, λ h. refl)
