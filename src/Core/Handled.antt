-- ===== src/Core/Handled.antt =====
-- What `handle` of core.py leaves in the audit log, whatever the components around it do.
use mathlib.Core.List.{append-nil}
use mathlib.Core.Path.{subst}
use agent_keep.Base.{
  ◌+◌, String, ◌≡◌, ◌⊎◌, inl, ◌++◌, refl, sym, ap, ◌∙◌, Option, none, some, [], Result, ok, err,
  arith,
}
use agent_keep.Audit.{AuditLog}
use agent_keep.Messages.{human, InternalMessage, message_text}
use agent_keep.Executor.Types.{Host}
use agent_keep.Router.Budget.{Floats}
use agent_keep.Sessions.Keys.{Session}
use agent_keep.Core.Model.{ProviderReply, Providers, Error, AgentCore, max_tool_rounds}
use agent_keep.Core.Trigger.{trigger_for}
use agent_keep.Core.Turn.{model_calls}
use agent_keep.Core.Rounds.{Grows, run_turn-Grows}
use agent_keep.Core.Handle.{
  SessionManager, CommandSurface, Seams, Failure, Agent, bind, call_sessions, call_turn, command,
  add_inbound, add_outbound, confirm, model_turn, respond, handle,
}
use agent_keep.Core.Keeps.{
  Keeps, bind-Keeps, call_sessions-Keeps, record_past-Keeps, relevant-Keeps, recalled-Keeps,
  known_facts-Keeps, IsWritten, call_sessions-core, command-Writes, Keeps-Grows, bind-Grows,
  bind-Grows_from, Grows-bind,
}

module _ {V W F S : Type 0} (host : Host V) (floats : Floats F) (out : Providers V W)
    (manager : SessionManager S) (seams : Seams W) where
  add_inbound-Keeps :
      (a : Agent V W F S) (session : Session) (message : InternalMessage)
      → Keeps a (add_inbound host floats out manager seams a session message).0
  unfolding add_inbound
  add_inbound-Keeps a session message =
      bind-Keeps a _ _ (call_sessions-Keeps a _)
        (λ b told. bind-Keeps b _ _ (record_past-Keeps b told seams.history) (λ c _. refl))

  add_outbound-Keeps :
      (a : Agent V W F S) (session : Session) (text : String)
      → Keeps a (add_outbound host floats out manager seams a session text).0
  unfolding add_outbound
  add_outbound-Keeps a session text =
      bind-Keeps a _ _ (call_sessions-Keeps a _)
        (λ b said. bind-Keeps b _ _ (record_past-Keeps b said seams.history) (λ c _. refl))

  pub confirm-Keeps :
      (a : Agent V W F S) (session : Session) (message : InternalMessage) (text : String)
      → Keeps a (confirm host floats out manager seams a session message text).0
  unfolding confirm
  confirm-Keeps a session message text =
      bind-Keeps a _ _ (add_inbound-Keeps a session message)
        (λ b told. add_outbound-Keeps b told text)

  call_turn-sink :
      (a : Agent V W F S) (p : AgentCore V W F × Result Error (ProviderReply V))
      → (call_turn a p).0.core ≡ p.0
  unfolding call_turn
  call_turn-sink a (core, ok reply) = refl
  call_turn-sink a (core, err e) = refl

  model_turn-Grows :
      (a : Agent V W F S) (session : Session) (message : InternalMessage)
      → Grows
          (trigger_for message)
          (1 + max_tool_rounds)
          a.core.audit_sink
          (model_turn host floats out manager seams a session message).0.core.audit_sink
  unfolding model_turn
  model_turn-Grows a session message =
      let t = trigger_for message in
      let n = 1 + max_tool_rounds in
      bind-Grows t n a _ _ (relevant-Keeps a session message seams.history) (λ b retrieved.
        bind-Grows t n b _ _ (add_inbound-Keeps b session message) (λ c told.
          bind-Grows t n c _ _ (recalled-Keeps c message seams.recall) (λ d memories.
            bind-Grows t n d _ _ (known_facts-Keeps d seams.facts_block) (λ e facts.
              Grows-bind t n e.core.audit_sink _ _
                (rw (call_turn-sink e _)
                  (run_turn-Grows host floats out e.core _ t (some told.session_id) message.id))
                (λ f reply. add_outbound-Keeps f told reply.text)))))

  respond-Grows :
      (a : Agent V W F S) (session : Session) (message : InternalMessage)
      (confirmation : Option String)
      → Grows
          (trigger_for message)
          (1 + max_tool_rounds)
          a.core.audit_sink
          (respond host floats out manager seams a session message confirmation).0.core.audit_sink
  unfolding respond
  respond-Grows a session message (some text) =
      Keeps-Grows (trigger_for message) (1 + max_tool_rounds) a
        (confirm host floats out manager seams a session message text).0
        (confirm-Keeps a session message text)
  respond-Grows a session message none = model_turn-Grows a session message

  on_session-Grows :
      (a b : Agent V W F S) (message : InternalMessage) (session : Session)
      → b.core ≡ a.core
      → (written : AuditLog) × IsWritten seams a message written
        × Grows
            (trigger_for message)
            (1 + max_tool_rounds)
            (a.core.audit_sink ++ written)
            (bind
              (command seams b message message.sender.kind seams.handle_command)
              (λ c confirmation.
                respond host floats out manager seams c session message
                  confirmation)).0.core.audit_sink
  on_session-Grows a b message session same =
      let (written, is_written, sunk) =
        command-Writes seams b message message.sender.kind seams.handle_command refl refl in
      (
        written,
        subst
            (λ (core : AgentCore V W F).
              (written ≡ [])
              ⊎ ((ask : CommandSurface W) × (seams.handle_command ≡ some ask)
                  × (message.sender.kind ≡ human)
                  × (written ≡ (ask core.world (message_text message) (trigger_for message)).1)))
            same is_written,
        bind-Grows_from (trigger_for message) (1 + max_tool_rounds) (a.core.audit_sink ++ written) _
            _ (sunk ∙ ap (λ (core : AgentCore V W F). core.audit_sink ++ written) same)
            (λ c confirmation. respond-Grows c session message confirmation),
      )

  opened-Grows :
      (a : Agent V W F S) (message : InternalMessage) (p : Agent V W F S × Result Failure Session)
      → p.0.core ≡ a.core
      → (written : AuditLog) × IsWritten seams a message written
        × Grows
            (trigger_for message)
            (1 + max_tool_rounds)
            (a.core.audit_sink ++ written)
            (bind p (λ b session.
              bind
                (command seams b message message.sender.kind seams.handle_command)
                (λ c confirmation.
                  respond host floats out manager seams c session message
                    confirmation))).0.core.audit_sink
  unfolding bind model_calls
  opened-Grows a message (b, ok session) same = on_session-Grows a b message session same
  opened-Grows a message (b, err e) same = (
    [],
    inl refl,
    (
      [],
      ap (λ (core : AgentCore V W F). core.audit_sink) same
          ∙ sym (append-nil a.core.audit_sink)
          ∙ sym (append-nil (a.core.audit_sink ++ [])),
      tt,
      omega arith,
    ),
  )

  -- Handling a message always ends, whatever the components around the core do and wherever they
  -- raise: it makes at most nine model calls, and every record that it adds to the log, behind those
  -- that the command surface writes for a human's message, is valid and carries the message's own
  -- trigger.
  pub handle-Grows :
      (a : Agent V W F S) (message : InternalMessage)
      → (written : AuditLog) × IsWritten seams a message written
        × Grows
            (trigger_for message)
            (1 + max_tool_rounds)
            (a.core.audit_sink ++ written)
            (handle host floats out manager seams a message).0.core.audit_sink
  unfolding handle
  handle-Grows a message =
      opened-Grows a message (call_sessions a (manager.session_for a.sessions message))
        (call_sessions-core a _)
