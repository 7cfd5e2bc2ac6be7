-- ===== src/Sessions/Keys.antt =====
-- agent_runtime/sessions.py: turns, sessions, and the key that says what a session is.
use agent_keep.Base.{
  String, Option, none, some, List, [], ◌∷◌, ◌++◌, Result, ok, err, concat, str_eq, if◌then◌else◌,
}
use agent_keep.Messages.{InternalMessage, message_text}

pub data Role : Type 0 where
  user assistant : Role

pub record Turn : Type 0 where
  pub role : Role
  pub text : String
  pub trust : String
  pub platform : String
  pub message_id : Option String

pub record Session : Type 0 where
  pub session_id : String
  pub turns : List Turn

-- The turn that `Session.add_message` appends.
abbrev pub user_turn : InternalMessage → Turn
user_turn message = record {
  role = user;
  text = message_text message;
  trust = message.provenance.trust;
  platform = message.channel.platform;
  message_id = some message.id;
}

-- The turn that `Session.add_reply` appends.
abbrev pub reply_turn : String → Turn
reply_turn text = record {
  role = assistant;
  text = text;
  trust = "operator";
  platform = "internal";
  message_id = none;
}

abbrev pub append_turn : Session → Turn → Session
append_turn s t = record s { turns = s.turns ++ t ∷ [] }

unfoldable pub add_message : Session → InternalMessage → Session
add_message s message = append_turn s (user_turn message)

unfoldable pub add_reply : Session → String → Session
add_reply s text = append_turn s (reply_turn text)

abbrev pub channel_key : InternalMessage → String
channel_key message =
    concat ("channel:" ∷ message.channel.platform ∷ ":" ∷ message.channel.conversation_id ∷ [])

-- The key by the sender, who may have no platform id.
abbrev pub user_key : InternalMessage → Option String → String
user_key message none = channel_key message
user_key message (some platform_id) =
    concat ("user:" ∷ message.channel.platform ∷ ":" ∷ platform_id ∷ [])

-- `err` is the `ValueError` of a definition that has no implementation.
unfoldable pub session_key : Option String → InternalMessage → Result String String
session_key none message = ok "single"
session_key (some definition) message =
    if str_eq definition "per-channel"
    then ok (channel_key message)
    else if str_eq definition "per-user"
    then ok (user_key message message.sender.platform_id)
    else err (
        concat (
          "session definition '" ∷ definition
          ∷ "' has no implementation in this component-library version. "
          ∷ "The wiring guard should have refused this spec." ∷ []))
