-- ===== src/Spec/Intake.antt =====
-- keep_spec/models.py: who the agent is, what activates it, how messages arrive. The allowlist of the
-- gateway is Gateway/Gate.
use agent_keep.Base.{ℕ, String, Option, List}
use agent_keep.Gateway.Gate.{GatewayAllowlist}

pub record Metadata : Type 0 where
  pub name : String
  pub slug : String
  pub description : String
  pub spec_version : String

pub data PersonaSource : Type 0 where
  static learned both : PersonaSource

pub data Precedence : Type 0 where
  static_over_learned learned_over_static : Precedence

pub record Persona : Type 0 where
  pub identity : String
  pub tone : Option String
  pub instructions : List String
  pub source : PersonaSource
  pub precedence : Option Precedence

pub record ScheduleTrigger : Type 0 where
  pub cron : String
  pub prompt : String

pub record EventTrigger : Type 0 where
  pub source : String
  pub event : Option String
  pub prompt : Option String
  pub secret_env : String

-- `Trigger`, told apart by `kind`.
pub data Activation : Type 0 where
  message_trigger : Activation
  schedule_trigger : ScheduleTrigger → Activation
  event_trigger : EventTrigger → Activation

pub record Triggers : Type 0 where
  pub activations : List Activation

-- `ChannelVerification.method`; `unverified` is "none".
pub data Method : Type 0 where
  signature token unverified : Method

pub record ChannelVerification : Type 0 where
  pub method : Method
  pub secret_env : Option String

-- The deliveries of a channel; each adapter's schema lists those that it takes.
pub data DiscordTransport : Type 0 where
  websocket polling : DiscordTransport

pub data SlackTransport : Type 0 where
  webhook websocket polling : SlackTransport

pub data HookTransport : Type 0 where
  webhook polling : HookTransport

pub record DevHttpChannel : Type 0 where
  pub port : ℕ

pub record DiscordChannel : Type 0 where
  pub transport : DiscordTransport
  pub verification : ChannelVerification

pub record SlackChannel : Type 0 where
  pub transport : SlackTransport
  pub verification : ChannelVerification

pub record WebexChannel : Type 0 where
  pub transport : HookTransport
  pub verification : ChannelVerification

pub record SmsChannel : Type 0 where
  pub transport : HookTransport
  pub verification : ChannelVerification

-- `Channel`, told apart by `type`.
pub data Channel : Type 0 where
  dev_http : DevHttpChannel → Channel
  discord : DiscordChannel → Channel
  slack : SlackChannel → Channel
  webex : WebexChannel → Channel
  sms : SmsChannel → Channel

pub data Queue : Type 0 where
  in_process redis : Queue

pub data Concurrency : Type 0 where
  serial concurrent_locked : Concurrency

pub data Unification : Type 0 where
  manual_link challenge separate : Unification

pub record Gateway : Type 0 where
  pub queue : Queue
  pub concurrency : Concurrency
  pub allowlist : Option GatewayAllowlist
  pub identity_unification : Unification

-- The text that the schema writes for each choice.
abbrev pub channel_type : Channel → String
channel_type (dev_http c) = "dev-http"
channel_type (discord c) = "discord"
channel_type (slack c) = "slack"
channel_type (webex c) = "webex"
channel_type (sms c) = "sms"

abbrev pub trigger_kind : Activation → String
trigger_kind message_trigger = "message"
trigger_kind (schedule_trigger t) = "schedule"
trigger_kind (event_trigger t) = "event-subscription"

abbrev pub queue_name : Queue → String
queue_name in_process = "in-process"
queue_name redis = "redis"
