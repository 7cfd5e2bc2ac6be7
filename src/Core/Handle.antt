-- ===== src/Core/Handle.antt =====
-- `AgentCore.handle`: the command surface, the history, memory and facts that join the prompt, the
-- turn, and the reply. The components behind the core's protocols are parameters; any of their calls
-- may raise. What the reply's future is given is the result. Of these components
-- the command surface writes to the audit log.
use agent_keep.Base.{String, Option, none, some, List, [], ◌++◌, Result, ok, err}
use agent_keep.Audit.{Trigger, AuditLog}
use agent_keep.Messages.{SenderKind, human, InternalMessage, message_text}
use agent_keep.Executor.Types.{Host, Executor}
use agent_keep.Executor.Calls.{visible_tools}
use agent_keep.Router.Budget.{Floats}
use agent_keep.Sessions.Keys.{Turn, Session}
use agent_keep.Sessions.Store.{last_turn}
use agent_keep.Prompt.Assemble.{PromptAssembler, assemble}
use agent_keep.Core.Model.{AssembledPrompt, ProviderReply, Providers, Error, AgentCore}
use agent_keep.Core.Loop.{run_turn}
use agent_keep.Core.Trigger.{trigger_for}

-- `SessionManager`, and the methods of the sessions that it hands out, by the session's id.
pub record SessionManager (S : Type 0) : Type 0 where
  pub session_for : S → InternalMessage → S × Result String Session
  pub add_message : S → String → InternalMessage → S × Result String Session
  pub add_reply : S → String → String → S × Result String Session

pub record HistoryStrategy (W : Type 0) : Type 0 where
  pub relevant : W → String → String → W × Result String (List String)
  pub record_past : W → String → Turn → W × Result String Unit

-- `CommandSurfaceProtocol`: besides its result, the records that it appends to the audit log.
abbrev pub CommandSurface : Type 0 → Type 0
CommandSurface W = W → String → Trigger → W × AuditLog × Result String (Option String)

-- What the core was wired with, each part perhaps absent.
pub record Seams (W : Type 0) : Type 0 where
  pub persona_identity : String
  pub assembler : PromptAssembler
  pub history : Option (HistoryStrategy W)
  pub recall : Option (W → String → W × Result String (List String))
  pub handle_command : Option (CommandSurface W)
  pub facts_block : Option (W → W × Result String (List String))

pub data Failure : Type 0 where
  turn_failed : Error → Failure
  component_raised : String → Failure

pub record Agent (V W F S : Type 0) : Type 0 where
  pub core : AgentCore V W F
  pub sessions : S

-- The next statement, where the one before did not raise.
unfoldable pub bind :
    {T A B : Type 0} → T × Result Failure A → (T → A → T × Result Failure B) → T × Result Failure B
bind (a, err e) next = (a, err e)
bind (a, ok x) next = next a x

-- The tools that the model sees, where an executor is wired.
abbrev pub with_tools :
    {V W : Type 0} → Option (Executor V W) → AssembledPrompt V → AssembledPrompt V
with_tools none prompt = prompt
with_tools (some x) prompt = record prompt { tools = visible_tools x }

module _ {V W F S : Type 0} where
  -- A call into a component, on the world.
  unfoldable pub call_out :
      {A : Type 0} → Agent V W F S → W × Result String A → Agent V W F S × Result Failure A
  call_out a (w, ok x) = (record a { core = record a.core { world = w } }, ok x)
  call_out a (w, err e) =
      (record a { core = record a.core { world = w } }, err (component_raised e))

  unfoldable pub call_sessions :
      {A : Type 0} → Agent V W F S → S × Result String A → Agent V W F S × Result Failure A
  call_sessions a (s, ok x) = (record a { sessions = s }, ok x)
  call_sessions a (s, err e) = (record a { sessions = s }, err (component_raised e))

  unfoldable pub call_turn :
      Agent V W F S
      → AgentCore V W F × Result Error (ProviderReply V)
      → Agent V W F S × Result Failure (ProviderReply V)
  call_turn a (core, ok reply) = (record a { core = core }, ok reply)
  call_turn a (core, err e) = (record a { core = core }, err (turn_failed e))

  -- A call of the command surface, which writes to the audit log itself.
  unfoldable pub call_command :
      {A : Type 0}
      → Agent V W F S
      → W × AuditLog × Result String A
      → Agent V W F S × Result Failure A
  call_command a p =
      call_out (record a { core = record a.core { audit_sink = a.core.audit_sink ++ p.1 } })
        (p.0, p.2)

  -- `self._commands.handle_command`, asked for a human's message only.
  unfoldable pub command :
      Seams W
      → Agent V W F S
      → InternalMessage
      → SenderKind
      → Option (CommandSurface W)
      → Agent V W F S × Result Failure (Option String)
  command seams a message human (some ask) =
      call_command a (ask a.core.world (message_text message) (trigger_for message))
  command seams a message _ _ = (a, ok none)

  unfoldable pub record_turn_of :
      Agent V W F S
      → Session
      → HistoryStrategy W
      → Option Turn
      → Agent V W F S × Result Failure Unit
  record_turn_of a session history (some turn) =
      call_out a (history.record_past a.core.world session.session_id turn)
  record_turn_of a session history none = (a, err (component_raised "list index out of range"))

  -- `self._history.record(session.session_id, session.turns[-1])`
  unfoldable pub record_past :
      Agent V W F S → Session → Option (HistoryStrategy W) → Agent V W F S × Result Failure Unit
  record_past a session none = (a, ok tt)
  record_past a session (some history) = record_turn_of a session history (last_turn session.turns)

  -- `None` where no history strategy is wired.
  unfoldable pub relevant :
      Agent V W F S
      → Session
      → InternalMessage
      → Option (HistoryStrategy W)
      → Agent V W F S × Result Failure (Option (List String))
  relevant a session message none = (a, ok none)
  relevant a session message (some history) =
      bind (call_out a (history.relevant a.core.world session.session_id (message_text message)))
        (λ a entries. (a, ok (some entries)))

  unfoldable pub recalled :
      Agent V W F S
      → InternalMessage
      → Option (W → String → W × Result String (List String))
      → Agent V W F S × Result Failure (List String)
  recalled a message none = (a, ok [])
  recalled a message (some recall) = call_out a (recall a.core.world (message_text message))

  unfoldable pub known_facts :
      Agent V W F S
      → Option (W → W × Result String (List String))
      → Agent V W F S × Result Failure (List String)
  known_facts a none = (a, ok [])
  known_facts a (some block) = call_out a (block a.core.world)

module _ {V W F S : Type 0} (host : Host V) (floats : Floats F) (out : Providers V W)
    (manager : SessionManager S) (seams : Seams W) where
  -- The inbound turn, indexed once the session holds it.
  unfoldable pub add_inbound :
      Agent V W F S → Session → InternalMessage → Agent V W F S × Result Failure Session
  add_inbound a session message =
      bind (call_sessions a (manager.add_message a.sessions session.session_id message))
        (λ a told. bind (record_past a told seams.history) (λ a _. (a, ok told)))

  -- The reply's turn, indexed the same way; the text is what the sender gets.
  unfoldable pub add_outbound :
      Agent V W F S → Session → String → Agent V W F S × Result Failure String
  add_outbound a session text =
      bind (call_sessions a (manager.add_reply a.sessions session.session_id text))
        (λ a said. bind (record_past a said seams.history) (λ a _. (a, ok text)))

  unfoldable pub confirm :
      Agent V W F S → Session → InternalMessage → String → Agent V W F S × Result Failure String
  confirm a session message confirmation =
      bind (add_inbound a session message) (λ a told. add_outbound a told confirmation)

  unfoldable pub model_turn :
      Agent V W F S → Session → InternalMessage → Agent V W F S × Result Failure String
  model_turn a session message = bind (relevant a session message seams.history) (λ a retrieved.
      bind (add_inbound a session message) (λ a told.
        bind (recalled a message seams.recall) (λ a memories.
          bind (known_facts a seams.facts_block) (λ a facts.
            let prompt =
              assemble seams.assembler seams.persona_identity told memories retrieved facts in
            bind
              (call_turn a (
                run_turn host floats out a.core (with_tools a.core.executor prompt)
                  (trigger_for message) (some told.session_id) message.id))
              (λ a reply. add_outbound a told reply.text)))))

  unfoldable pub respond :
      Agent V W F S
      → Session
      → InternalMessage
      → Option String
      → Agent V W F S × Result Failure String
  respond a session message (some confirmation) = confirm a session message confirmation
  respond a session message none = model_turn a session message

  unfoldable pub handle : Agent V W F S → InternalMessage → Agent V W F S × Result Failure String
  handle a message = bind (call_sessions a (manager.session_for a.sessions message)) (λ a session.
      bind (command seams a message message.sender.kind seams.handle_command)
        (λ a confirmation. respond a session message confirmation))
