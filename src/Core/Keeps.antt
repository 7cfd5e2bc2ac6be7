-- ===== src/Core/Keeps.antt =====
-- What the calls around a turn of core.py's `handle` leave of the core, and what the command surface
-- adds to its log.
use mathlib.Core.List.{append-nil}
use agent_keep.Base.{
  ℕ, String, ◌≡◌, ◌⊎◌, inl, inr, ◌++◌, refl, sym, ap, ◌∙◌, Option, none, some, List, [], Result, ok,
  err, arith,
}
use agent_keep.Audit.{Trigger, AuditLog}
use agent_keep.Messages.{SenderKind, human, system, InternalMessage, message_text}
use agent_keep.Sessions.Keys.{Turn, Session}
use agent_keep.Sessions.Store.{last_turn}
use agent_keep.Core.Model.{AgentCore}
use agent_keep.Core.Trigger.{trigger_for}
use agent_keep.Core.Turn.{model_calls}
use agent_keep.Core.Rounds.{Grows}
use agent_keep.Core.Handle.{
  HistoryStrategy, CommandSurface, Seams, Failure, Agent, bind, call_out, call_sessions,
  call_command, command, record_turn_of, record_past, relevant, recalled, known_facts,
}

module _ {V W F S : Type 0} where
  -- The core is the same but for the world outside: no record is written, no tool and no model is
  -- called, and no budget is charged.
  abbrev pub Keeps : Agent V W F S → Agent V W F S → Type 0
  Keeps a b = b.core ≡ record a.core { world = b.core.world }

  Keeps-trans : (a b c : Agent V W F S) → Keeps a b → Keeps b c → Keeps a c
  Keeps-trans a b c e f = f ∙ ap (λ (k : AgentCore V W F). record k { world = c.core.world }) e

  Keeps-sink : (a b : Agent V W F S) → Keeps a b → b.core.audit_sink ≡ a.core.audit_sink
  Keeps-sink a b e = ap (λ (k : AgentCore V W F). k.audit_sink) e

  pub bind-Keeps :
      {A B : Type 0} (a : Agent V W F S) (p : Agent V W F S × Result Failure A)
      (next : Agent V W F S → A → Agent V W F S × Result Failure B)
      → Keeps a p.0
      → ((b : Agent V W F S) (x : A) → Keeps b (next b x).0)
      → Keeps a (bind p next).0
  unfolding bind
  bind-Keeps a (b, err e) next h k = h
  bind-Keeps a (b, ok x) next h k = Keeps-trans a b (next b x).0 h (k b x)

  call_out-Keeps :
      {A : Type 0} (a : Agent V W F S) (p : W × Result String A) → Keeps a (call_out a p).0
  unfolding call_out
  call_out-Keeps a (w, ok x) = refl
  call_out-Keeps a (w, err e) = refl

  pub call_sessions-Keeps :
      {A : Type 0} (a : Agent V W F S) (p : S × Result String A) → Keeps a (call_sessions a p).0
  unfolding call_sessions
  call_sessions-Keeps a (s, ok x) = refl
  call_sessions-Keeps a (s, err e) = refl

  pub record_past-Keeps :
      (a : Agent V W F S) (session : Session) (history : Option (HistoryStrategy W))
      → Keeps a (record_past a session history).0
  unfolding record_past record_turn_of
  record_past-Keeps a session none = refl
  record_past-Keeps a session (some history) = of_last (last_turn session.turns)
    where
      of_last : (t : Option Turn) → Keeps a (record_turn_of a session history t).0
      of_last none = refl
      of_last (some t) = call_out-Keeps a _

  pub relevant-Keeps :
      (a : Agent V W F S) (session : Session) (message : InternalMessage)
      (history : Option (HistoryStrategy W))
      → Keeps a (relevant a session message history).0
  unfolding relevant
  relevant-Keeps a session message none = refl
  relevant-Keeps a session message (some history) =
      bind-Keeps a _ _ (call_out-Keeps a _) (λ b x. refl)

  pub recalled-Keeps :
      (a : Agent V W F S) (message : InternalMessage)
      (recall : Option (W → String → W × Result String (List String)))
      → Keeps a (recalled a message recall).0
  unfolding recalled
  recalled-Keeps a message none = refl
  recalled-Keeps a message (some recall) = call_out-Keeps a _

  pub known_facts-Keeps :
      (a : Agent V W F S) (block : Option (W → W × Result String (List String)))
      → Keeps a (known_facts a block).0
  unfolding known_facts
  known_facts-Keeps a none = refl
  known_facts-Keeps a (some block) = call_out-Keeps a _

  -- The records of the command surface for a message: those that it gives back, where it is wired and
  -- the message is a human's, and else none.
  abbrev pub IsWritten : Seams W → Agent V W F S → InternalMessage → AuditLog → Type 0
  IsWritten seams a message written =
      (written ≡ [])
      ⊎ ((ask : CommandSurface W) × (seams.handle_command ≡ some ask)
          × (message.sender.kind ≡ human)
          × (written ≡ (ask a.core.world (message_text message) (trigger_for message)).1))

  call_out-sink :
      {A : Type 0} (a : Agent V W F S) (p : W × Result String A)
      → (call_out a p).0.core.audit_sink ≡ a.core.audit_sink
  call_out-sink a p = Keeps-sink a (call_out a p).0 (call_out-Keeps a p)

  pub call_sessions-core :
      {A : Type 0} (a : Agent V W F S) (p : S × Result String A)
      → (call_sessions a p).0.core ≡ a.core
  unfolding call_sessions
  call_sessions-core a (s, ok x) = refl
  call_sessions-core a (s, err e) = refl

  pub command-Writes :
      (seams : Seams W) (a : Agent V W F S) (message : InternalMessage) (kind : SenderKind)
      (ask : Option (CommandSurface W))
      → message.sender.kind ≡ kind
      → seams.handle_command ≡ ask
      → (written : AuditLog) × IsWritten seams a message written
        × ((command seams a message kind ask).0.core.audit_sink ≡ a.core.audit_sink ++ written)
  unfolding command call_command
  command-Writes seams a message human (some ask) k e = (
    (ask a.core.world (message_text message) (trigger_for message)).1,
    inr (ask, e, k, refl),
    call_out-sink _ _,
  )
  command-Writes seams a message human none k e = ([], inl refl, sym (append-nil a.core.audit_sink))
  command-Writes seams a message system ask k e = ([], inl refl, sym (append-nil a.core.audit_sink))

  pub Keeps-Grows :
      (trigger : Trigger) (n : ℕ) (a b : Agent V W F S)
      → Keeps a b
      → Grows trigger n a.core.audit_sink b.core.audit_sink
  unfolding model_calls
  Keeps-Grows trigger n a b h =
      ([], Keeps-sink a b h ∙ sym (append-nil a.core.audit_sink), tt, omega arith)

  -- Calls that write nothing, before a turn and after it.
  pub bind-Grows :
      {A B : Type 0} (trigger : Trigger) (n : ℕ) (a : Agent V W F S)
      (p : Agent V W F S × Result Failure A)
      (next : Agent V W F S → A → Agent V W F S × Result Failure B)
      → Keeps a p.0
      → ((b : Agent V W F S) (x : A)
          → Grows trigger n b.core.audit_sink (next b x).0.core.audit_sink)
      → Grows trigger n a.core.audit_sink (bind p next).0.core.audit_sink
  unfolding bind
  bind-Grows trigger n a (b, err e) next h k = Keeps-Grows trigger n a b h
  bind-Grows trigger n a (b, ok x) next h k = rw (sym (Keeps-sink a b h)) (k b x)

  -- A call after which the log is this one.
  pub bind-Grows_from :
      {A B : Type 0} (trigger : Trigger) (n : ℕ) (sink : AuditLog)
      (p : Agent V W F S × Result Failure A)
      (next : Agent V W F S → A → Agent V W F S × Result Failure B)
      → p.0.core.audit_sink ≡ sink
      → ((b : Agent V W F S) (x : A)
          → Grows trigger n b.core.audit_sink (next b x).0.core.audit_sink)
      → Grows trigger n sink (bind p next).0.core.audit_sink
  unfolding bind
  bind-Grows_from trigger n sink (b, err e) next h k = rw (sym h) (Keeps-Grows trigger n b b refl)
  bind-Grows_from trigger n sink (b, ok x) next h k = rw (sym h) (k b x)

  pub Grows-bind :
      {A B : Type 0} (trigger : Trigger) (n : ℕ) (sink : AuditLog)
      (p : Agent V W F S × Result Failure A)
      (next : Agent V W F S → A → Agent V W F S × Result Failure B)
      → Grows trigger n sink p.0.core.audit_sink
      → ((b : Agent V W F S) (x : A) → Keeps b (next b x).0)
      → Grows trigger n sink (bind p next).0.core.audit_sink
  unfolding bind
  Grows-bind trigger n sink (b, err e) next h k = h
  Grows-bind trigger n sink (b, ok x) next h k = rw (Keeps-sink b (next b x).0 (k b x)) h
