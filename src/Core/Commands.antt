-- ===== src/Core/Commands.antt =====
-- What `handle` of core.py tells the sender, and what it adds to the conversation.
use agent_keep.Base.{String, ◌≡◌, refl, ap, ◌∙◌, ◌++◌, Option, some, ok}
use agent_keep.Audit.{AuditLog}
use agent_keep.Messages.{human, InternalMessage, message_text}
use agent_keep.Executor.Types.{Host}
use agent_keep.Router.Budget.{Floats}
use agent_keep.Sessions.Keys.{Session}
use agent_keep.Core.Model.{Providers}
use agent_keep.Core.Trigger.{trigger_for}
use agent_keep.Core.Handle.{
  SessionManager, CommandSurface, Seams, Agent, bind, call_out, call_command, call_sessions,
  command, add_inbound, add_outbound, confirm, respond, handle,
}
use agent_keep.Core.Handled.{confirm-Keeps}
use agent_keep.Core.Ensures.{IsOr, bind-IsOr, call_sessions-IsOr, record_past-IsOr}

module _ {V W F S : Type 0} (host : Host V) (floats : Floats F) (out : Providers V W)
    (manager : SessionManager S) (seams : Seams W) where
  confirm-IsOr :
      (a : Agent V W F S) (session : Session) (message : InternalMessage) (text : String)
      → IsOr (λ t. t ≡ text) (confirm host floats out manager seams a session message text).1
  unfolding confirm add_inbound add_outbound
  confirm-IsOr a session message text =
      bind-IsOr (λ t. t ≡ text) _ _
        (bind-IsOr (λ t. Unit) _ _ (call_sessions-IsOr a _)
          (λ b told. bind-IsOr (λ t. Unit) _ _ (record_past-IsOr b told seams.history) (λ c _. tt)))
        (λ b told.
          bind-IsOr (λ t. t ≡ text) _ _ (call_sessions-IsOr b _)
            (λ c said.
              bind-IsOr (λ t. t ≡ text) _ _ (record_past-IsOr c said seams.history) (λ d _. refl)))

  -- A message that the command surface answers.
  answered_command :
      (a : Agent V W F S) (message : InternalMessage) (s : S) (session : Session) (w : W)
      (written : AuditLog) (ask : CommandSurface W) (confirmation : String)
      → message.sender.kind ≡ human
      → seams.handle_command ≡ some ask
      → manager.session_for a.sessions message ≡ (s, ok session)
      → ask a.core.world (message_text message) (trigger_for message)
        ≡ (w, written, ok (some confirmation))
      → handle host floats out manager seams a message
        ≡ confirm host floats out manager seams
            (record a {
              core = record a.core { world = w; audit_sink = a.core.audit_sink ++ written };
              sessions = s;
            })
            session
            message
            confirmation
  unfolding handle bind call_sessions command call_command call_out respond
  answered_command a message s session w written ask confirmation is_human wired opened answered =
      let b : Agent V W F S = record a { sessions = s } in
      let next = λ (c : Agent V W F S) (o : Option String).
        respond host floats out manager seams c session message o in
      ap
        (λ p. bind (call_sessions a p) (λ c x.
          bind (command seams c message message.sender.kind seams.handle_command)
            (λ d o. respond host floats out manager seams d x message o)))
        opened
      ∙ ap (λ k. bind (command seams b message k seams.handle_command) next) is_human
      ∙ ap (λ o. bind (command seams b message human o) next) wired
      ∙ ap (λ p. bind (call_command b p) next) answered

  -- A human's message that the command surface answers reaches no model and no tool, the core stays
  -- as it was but for the world outside and the records of the command surface, which are all that the
  -- log gains. The sender is told the confirmation, unless a component around the core raised.
  pub handle_command :
      (a : Agent V W F S) (message : InternalMessage) (s : S) (session : Session) (w : W)
      (written : AuditLog) (ask : CommandSurface W) (confirmation : String)
      → message.sender.kind ≡ human
      → seams.handle_command ≡ some ask
      → manager.session_for a.sessions message ≡ (s, ok session)
      → ask a.core.world (message_text message) (trigger_for message)
        ≡ (w, written, ok (some confirmation))
      → ((handle host floats out manager seams a message).0.core ≡ record a.core {
        world = (handle host floats out manager seams a message).0.core.world;
        audit_sink = a.core.audit_sink ++ written;
      })
        × IsOr (λ text. text ≡ confirmation) (handle host floats out manager seams a message).1
  handle_command a message s session w written ask confirmation is_human wired opened answered =
      let b : Agent V W F S = record a {
        core = record a.core { world = w; audit_sink = a.core.audit_sink ++ written };
        sessions = s;
      } in
      rw
        (answered_command a message s session w written ask confirmation is_human wired opened
          answered)
        (
          confirm-Keeps host floats out manager seams b session message confirmation,
          confirm-IsOr b session message confirmation,
        )
