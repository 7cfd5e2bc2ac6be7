-- ===== src/Messages.antt =====
-- agent_runtime/messages.py: the canonical inbound message. Of a content block's open fields those of
-- the `event` type are kept, which the core reads: absent where they hold no text.
use agent_keep.Base.{String, Bool, true, Option, some, List, [], ◌∷◌, str_eq, join}

pub record ChannelRef : Type 0 where
  pub platform : String
  pub conversation_id : String

pub data SenderKind : Type 0 where
  human system : SenderKind

pub record Sender : Type 0 where
  pub kind : SenderKind
  pub platform_id : Option String
  pub internal_user_id : Option String
  pub verified : Bool

pub record ContentBlock : Type 0 where
  pub block_type : String
  pub text : Option String
  pub trigger_id : Option String
  pub source : Option String

pub record Provenance : Type 0 where
  pub adapter : String
  pub trust : String

pub record InternalMessage : Type 0 where
  pub id : String
  pub ts : String
  pub channel : ChannelRef
  pub sender : Sender
  pub content : List ContentBlock
  pub provenance : Provenance

-- The block's text, in front of the others', where it is a `text` block that has one.
abbrev text_of : Bool → Option String → List String → List String
text_of true (some t) rest = t ∷ rest
text_of _ _ rest = rest

unfoldable pub texts : List ContentBlock → List String
texts [] = []
texts (b ∷ bs) = text_of (str_eq b.block_type "text") b.text (texts bs)

-- `InternalMessage.text`
unfoldable pub message_text : InternalMessage → String
message_text message = join "\n" (texts message.content)
