-- ===== src/Audit.antt =====
-- agent_runtime/audit.py: the audit record and its two validators. The sink is append-only, so it is
-- the list of the records that were appended. `id` and `ts` (a random uuid and the clock) and the
-- reserved `trace_id`, which no producer sets, carry no information here and are left out.
use agent_keep.Base.{ℕ, String, Bool, true, false, not, Option, none, some, List, [], ◌∷◌, ◌++◌}

pub record AgentIdentity : Type 0 where
  pub slug : String
  pub spec_version : String
  pub image_digest : String

pub record Trigger : Type 0 where
  pub message_id : Option String
  pub trigger_id : Option String
  pub purpose : String

pub record Action : Type 0 where
  pub name : String
  pub input_digest : String
  pub input_summary : String

pub data Status : Type 0 where
  ok error denied pending_approval : Status

pub record Outcome : Type 0 where
  pub status : Status
  pub output_digest : Option String

pub record Approval : Type 0 where
  pub required : Bool
  pub decided_by : String

pub record Cost : Type 0 where
  pub tokens_in : ℕ
  pub tokens_out : ℕ

pub data Event : Type 0 where
  tool_call approval memory_write model_call budget_warning gateway_reject trigger_event : Event

pub record AuditRecord : Type 0 where
  pub agent : AgentIdentity
  pub event : Event
  pub trigger : Trigger
  pub action : Action
  pub outcome : Outcome
  pub approval : Option Approval
  pub cost : Option Cost

abbrev is_none {ℓ} : {A : Type ℓ} → Option A → Bool
is_none none = true
is_none (some a) = false

-- `Trigger._exactly_one_source`: false where the validator raises.
abbrev one_source : Option String → Option String → Bool
one_source none none = false
one_source none (some t) = true
one_source (some m) none = true
one_source (some m) (some t) = false

unfoldable pub exactly_one_source : Trigger → Bool
exactly_one_source t = one_source t.message_id t.trigger_id

-- `AuditRecord._event_blocks`: false where the validator raises.
abbrev blocks_for : Event → Option Approval → Option Cost → Bool
blocks_for Event.tool_call a c = not (is_none a)
blocks_for Event.model_call a c = not (is_none c)
blocks_for _ a c = true

unfoldable pub event_blocks : AuditRecord → Bool
event_blocks r = blocks_for r.event r.approval r.cost

abbrev pub AuditLog : Type 0
AuditLog = List AuditRecord

-- `AuditSink.append`
abbrev pub append : AuditLog → AuditRecord → AuditLog
append sink r = sink ++ r ∷ []
