-- ===== src/Core/HandleTests.antt =====
-- A command of a human and a message that no model answers well, for the theorems about `handle`.
use agent_keep.Base.{
  ℕ, true, String, ◌+◌, ◌≡◌, refl, Option, none, some, [], ◌∷◌, ◌++◌, Result, ok, str_eq,
  if◌then◌else◌, join,
}
use agent_keep.Base.Dict.{get, put}
use agent_keep.Sessions.Store.{single_session_for}
use agent_keep.Sessions.Keys.{session_key}
use agent_keep.Audit.{Trigger, AuditLog, AuditRecord, Event, Status}
use agent_keep.Messages.{InternalMessage, human, message_text, texts}
use agent_keep.Sessions.Keys.{Session}
use agent_keep.Core.Model.{max_tool_rounds}
use agent_keep.Core.Trigger.{trigger_for}
use agent_keep.Core.Rounds.{Grows}
use agent_keep.Core.Handle.{
  Seams, Agent, bind, call_sessions, call_out, call_command, command, respond, confirm, add_inbound,
  add_outbound, record_past, handle,
}
use agent_keep.Core.Keeps.{IsWritten}
use agent_keep.Core.Handled.{handle-Grows}
use agent_keep.Core.Ensures.{IsOr}
use agent_keep.Core.Commands.{handle_command}
use agent_keep.Core.Conversation.{IsAnswered, handle-IsAnswered}
use agent_keep.Core.Managers.{Keyed, IsKeyed, single_sessions, single_sessions-IsManager}
use agent_keep.Core.Tests.{host, floats, providers, core}

-- A command surface that keeps what it is told to.
abbrev memory_record : Trigger → AuditRecord
memory_record trigger = record {
  agent = record { slug = "scribe"; spec_version = "1"; image_digest = "sha256:0" };
  event = Event.memory_write;
  trigger = trigger;
  action = record { name = "remember"; input_digest = "0"; input_summary = "tea" };
  outcome = record { status = Status.ok; output_digest = none };
  approval = none;
  cost = none;
}

abbrev remember : ℕ → String → Trigger → ℕ × AuditLog × Result String (Option String)
remember w text trigger =
    if str_eq text "/remember tea"
    then (w + 1, memory_record trigger ∷ [], ok (some "Remembered: tea"))
    else (w, [], ok none)

abbrev seams : Seams ℕ
seams = record {
  persona_identity = "You are a scribe.";
  assembler = record { window_turns = none };
  history = none;
  recall = none;
  handle_command = some remember;
  facts_block = some (λ w. (w, ok ("tea" ∷ [])));
}

absent_differs : {s : Session} → ◌≡◌ {A = Option Session} none (some s) → ⊥
absent_differs e = cc

empty-IsKeyed : IsKeyed (record { definition = none; sessions = [] })
unfolding get
empty-IsKeyed i s e = absurd (absent_differs e)

abbrev sessions : Keyed
sessions = (record { definition = none; sessions = [] }, empty-IsKeyed)

abbrev agent : Agent ℕ ℕ ℕ Keyed
agent = record { core = core; sessions = sessions }

abbrev asks : String → InternalMessage
asks text = record {
  id = "m1";
  ts = "now";
  channel = record { platform = "dev"; conversation_id = "c" };
  sender = record {
    kind = human;
    platform_id = some "u";
    internal_user_id = none;
    verified = true;
  };
  content = record { block_type = "text"; text = some text; trigger_id = none; source = none } ∷ [];
  provenance = record { adapter = "dev"; trust = "untrusted" };
}

handle-Grows_example :
    (written : AuditLog) × IsWritten seams agent (asks "hello") written
    × Grows
        (trigger_for (asks "hello"))
        (1 + max_tool_rounds)
        ([] ++ written)
        (handle host floats providers single_sessions seams agent (asks "hello")).0.core.audit_sink
handle-Grows_example = handle-Grows host floats providers single_sessions seams agent (asks "hello")

handle_command_example :
    ((handle host floats providers single_sessions seams agent (asks "/remember tea")).0.core
      ≡ record core {
        world =
            (handle host floats providers single_sessions seams agent
              (asks "/remember tea")).0.core.world;
        audit_sink = [] ++ memory_record (trigger_for (asks "/remember tea")) ∷ [];
      })
    × IsOr
        (λ text. text ≡ "Remembered: tea")
        (handle host floats providers single_sessions seams agent (asks "/remember tea")).1
unfolding single_sessions message_text texts join single_session_for session_key get
handle_command_example =
    handle_command host floats providers single_sessions seams agent (asks "/remember tea")
      (single_sessions.session_for sessions (asks "/remember tea")).0
      (record { session_id = "single"; turns = [] }) 1
      (memory_record (trigger_for (asks "/remember tea")) ∷ []) remember "Remembered: tea" refl refl
      refl refl

abbrev after : Agent ℕ ℕ ℕ Keyed
after = (handle host floats providers single_sessions seams agent (asks "/remember tea")).0

handle-IsAnswered_example :
    IsAnswered host floats providers single_sessions seams single_sessions-IsManager agent
      (asks "/remember tea")
      after
      "Remembered: tea"
unfolding handle single_sessions message_text texts join bind call_sessions single_session_for
    session_key command call_command call_out respond confirm add_inbound add_outbound record_past
    get put
handle-IsAnswered_example =
    handle-IsAnswered host floats providers single_sessions seams single_sessions-IsManager agent
      after (asks "/remember tea") "Remembered: tea" refl
