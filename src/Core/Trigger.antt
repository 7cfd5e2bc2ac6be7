-- ===== src/Core/Trigger.antt =====
-- `_trigger_for`: why a turn runs.
use agent_keep.Base.{String, Option, none, some, List, [], ◌∷◌, concat, str_eq, if◌then◌else◌}
use agent_keep.Audit.{Trigger}
use agent_keep.Messages.{SenderKind, human, system, ContentBlock, InternalMessage}

-- `isinstance(trigger_id, str) and trigger_id`
abbrev pub non_empty : Option String → Option String
non_empty none = none
non_empty (some text) = if str_eq text "" then none else some text

-- What a block says of the event that it carries: the activation's id, and the source if it has one.
abbrev pub event_id : ContentBlock → Option String
event_id block = if str_eq block.block_type "event" then non_empty block.trigger_id else none

abbrev pub label_or : Option String → String → String
label_or none platform = platform
label_or (some source) platform = source

abbrev pub message_trigger : InternalMessage → Trigger
message_trigger message = record {
  message_id = some message.id;
  trigger_id = none;
  purpose = concat (
      "reply to " ∷ message.channel.platform ∷ " message in conversation "
      ∷ message.channel.conversation_id ∷ []);
}

abbrev pub event_trigger : InternalMessage → String → Option String → Trigger
event_trigger message trigger_id source = record {
  message_id = none;
  trigger_id = some trigger_id;
  purpose = concat (
      "handle '"
      ∷ label_or source message.channel.platform
      ∷ "' event activation in conversation "
      ∷ message.channel.conversation_id
      ∷ []);
}

abbrev pub found_or : InternalMessage → Option String → Option String → Trigger → Trigger
found_or message none source rest = rest
found_or message (some trigger_id) source rest = event_trigger message trigger_id source

-- The loop over the blocks of a system's message.
unfoldable pub scan_events : InternalMessage → List ContentBlock → Trigger
scan_events message [] = message_trigger message
scan_events message (block ∷ blocks) =
    found_or message (event_id block) (non_empty block.source) (scan_events message blocks)

abbrev pub trigger_by_kind : InternalMessage → SenderKind → Trigger
trigger_by_kind message human = message_trigger message
trigger_by_kind message system = scan_events message message.content

unfoldable pub trigger_for : InternalMessage → Trigger
trigger_for message = trigger_by_kind message message.sender.kind
