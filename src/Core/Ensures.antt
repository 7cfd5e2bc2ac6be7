-- ===== src/Core/Ensures.antt =====
-- What the statements of `handle` of core.py give, and what they leave of the sessions.
use agent_keep.Base.{String, ◌≡◌, refl, Option, none, some, List, [], ◌∷◌, ◌++◌, Result, ok, err}
use agent_keep.Audit.{AuditLog}
use agent_keep.Messages.{SenderKind, human, system, InternalMessage}
use agent_keep.Sessions.Keys.{Turn, Session, user_turn, reply_turn}
use agent_keep.Sessions.Store.{last_turn}
use agent_keep.Core.Model.{ProviderReply, Error, AgentCore}
use agent_keep.Core.Handle.{
  SessionManager, HistoryStrategy, CommandSurface, Seams, Failure, turn_failed, component_raised,
  Agent, bind, call_out, call_sessions, call_turn, call_command, command, record_turn_of,
  record_past, relevant, recalled, known_facts,
}

-- A result that is this, or the exception of a component around the core.
abbrev pub IsOr : {A : Type 0} → (A → Type 0) → Result Failure A → Type 0
IsOr P (ok x) = P x
IsOr P (err (component_raised e)) = Unit
IsOr P (err (turn_failed e)) = ⊥

-- What the sessions promise: a session is handed out with its turns, and grows by one turn at a time.
pub record IsManager {S : Type 0} (manager : SessionManager S) : Type 0 where
  pub turns_of : S → String → List Turn
  pub opened :
      (s t : S) (message : InternalMessage) (session : Session)
      → manager.session_for s message ≡ (t, ok session)
      → turns_of t session.session_id ≡ session.turns
  pub told :
      (s t : S) (i : String) (message : InternalMessage) (session : Session)
      → manager.add_message s i message ≡ (t, ok session)
      → (session.session_id ≡ i) × (turns_of t i ≡ turns_of s i ++ user_turn message ∷ [])
  pub said :
      (s t : S) (i text : String) (session : Session)
      → manager.add_reply s i text ≡ (t, ok session)
      → (session.session_id ≡ i) × (turns_of t i ≡ turns_of s i ++ reply_turn text ∷ [])

module _ {V W F S : Type 0} where
  pub bind-IsOr :
      {A B : Type 0} (P : B → Type 0) (p : Agent V W F S × Result Failure A)
      (next : Agent V W F S → A → Agent V W F S × Result Failure B)
      → IsOr (λ x. Unit) p.1
      → ((b : Agent V W F S) (x : A) → IsOr P (next b x).1)
      → IsOr P (bind p next).1
  unfolding bind
  bind-IsOr P (b, ok x) next h k = k b x
  bind-IsOr P (b, err (component_raised e)) next h k = tt
  bind-IsOr P (b, err (turn_failed e)) next h k = h

  pub call_out-IsOr :
      {A : Type 0} (a : Agent V W F S) (p : W × Result String A) → IsOr (λ x. Unit) (call_out a p).1
  unfolding call_out
  call_out-IsOr a (w, ok x) = tt
  call_out-IsOr a (w, err e) = tt

  pub call_sessions-IsOr :
      {A : Type 0} (a : Agent V W F S) (p : S × Result String A)
      → IsOr (λ x. Unit) (call_sessions a p).1
  unfolding call_sessions
  call_sessions-IsOr a (w, ok x) = tt
  call_sessions-IsOr a (w, err e) = tt

  pub record_past-IsOr :
      (a : Agent V W F S) (session : Session) (history : Option (HistoryStrategy W))
      → IsOr (λ x. Unit) (record_past a session history).1
  unfolding record_past record_turn_of
  record_past-IsOr a session none = tt
  record_past-IsOr a session (some history) = of_last (last_turn session.turns)
    where
      of_last : (t : Option Turn) → IsOr (λ x. Unit) (record_turn_of a session history t).1
      of_last none = tt
      of_last (some t) = call_out-IsOr a (history.record_past a.core.world session.session_id t)

  -- What holds behind a call that did not raise.
  abbrev pub Ensures :
      {A : Type 0} → (Agent V W F S → A → Type 0) → Agent V W F S × Result Failure A → Type 0
  Ensures P (b, ok x) = P b x
  Ensures P (b, err e) = Unit

  pub bind-Ensures :
      {A B : Type 0} (Q : Agent V W F S → A → Type 0) (P : Agent V W F S → B → Type 0)
      (p : Agent V W F S × Result Failure A)
      (next : Agent V W F S → A → Agent V W F S × Result Failure B)
      → Ensures Q p
      → ((b : Agent V W F S) (x : A) → Q b x → Ensures P (next b x))
      → Ensures P (bind p next)
  unfolding bind
  bind-Ensures Q P (b, ok x) next h k = k b x h
  bind-Ensures Q P (b, err e) next h k = tt

  pub Ensures-map :
      {A : Type 0} (P Q : Agent V W F S → A → Type 0) (p : Agent V W F S × Result Failure A)
      → ((b : Agent V W F S) (x : A) → P b x → Q b x)
      → Ensures P p
      → Ensures Q p
  Ensures-map P Q (b, ok x) k h = k b x h
  Ensures-map P Q (b, err e) k h = tt

  -- The sessions are as they were.
  abbrev pub Rests : {A : Type 0} → Agent V W F S → Agent V W F S → A → Type 0
  Rests a b x = b.sessions ≡ a.sessions

  pub call_out-Rests :
      {A : Type 0} (a : Agent V W F S) (p : W × Result String A) → Ensures (Rests a) (call_out a p)
  unfolding call_out
  call_out-Rests a (w, ok x) = refl
  call_out-Rests a (w, err e) = tt

  pub call_sessions-Ensures :
      {A : Type 0} (a : Agent V W F S) (p : S × Result String A)
      → Ensures (λ b x. p ≡ (b.sessions, ok x)) (call_sessions a p)
  unfolding call_sessions
  call_sessions-Ensures a (s, ok x) = refl
  call_sessions-Ensures a (s, err e) = tt

  pub call_turn-Rests :
      (a : Agent V W F S) (p : AgentCore V W F × Result Error (ProviderReply V))
      → Ensures (Rests a) (call_turn a p)
  unfolding call_turn
  call_turn-Rests a (core, ok x) = refl
  call_turn-Rests a (core, err e) = tt

  pub record_past-Rests :
      (a : Agent V W F S) (session : Session) (history : Option (HistoryStrategy W))
      → Ensures (Rests a) (record_past a session history)
  unfolding record_past record_turn_of
  record_past-Rests a session none = refl
  record_past-Rests a session (some history) = of_last (last_turn session.turns)
    where
      of_last : (t : Option Turn) → Ensures (Rests a) (record_turn_of a session history t)
      of_last none = tt
      of_last (some t) = call_out-Rests a (history.record_past a.core.world session.session_id t)

  pub relevant-Rests :
      (a : Agent V W F S) (session : Session) (message : InternalMessage)
      (history : Option (HistoryStrategy W))
      → Ensures (Rests a) (relevant a session message history)
  unfolding relevant
  relevant-Rests a session message none = refl
  relevant-Rests a session message (some history) =
      bind-Ensures (Rests a) (Rests a) _ _ (call_out-Rests a _) (λ b x e. e)

  pub recalled-Rests :
      (a : Agent V W F S) (message : InternalMessage)
      (recall : Option (W → String → W × Result String (List String)))
      → Ensures (Rests a) (recalled a message recall)
  unfolding recalled
  recalled-Rests a message none = refl
  recalled-Rests a message (some recall) = call_out-Rests a _

  pub known_facts-Rests :
      (a : Agent V W F S) (block : Option (W → W × Result String (List String)))
      → Ensures (Rests a) (known_facts a block)
  unfolding known_facts
  known_facts-Rests a none = refl
  known_facts-Rests a (some block) = call_out-Rests a _

  call_command-Rests :
      {A : Type 0} (a : Agent V W F S) (p : W × AuditLog × Result String A)
      → Ensures (Rests a) (call_command a p)
  unfolding call_command
  call_command-Rests a p =
      call_out-Rests (record a { core = record a.core { audit_sink = a.core.audit_sink ++ p.1 } })
        (p.0, p.2)

  pub command-Rests :
      (seams : Seams W) (a : Agent V W F S) (message : InternalMessage) (kind : SenderKind)
      (ask : Option (CommandSurface W))
      → Ensures (Rests a) (command seams a message kind ask)
  unfolding command
  command-Rests seams a message human (some ask) = call_command-Rests a _
  command-Rests seams a message human none = refl
  command-Rests seams a message system ask = refl
