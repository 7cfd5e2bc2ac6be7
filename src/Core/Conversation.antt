-- ===== src/Core/Conversation.antt =====
-- What `handle` of core.py adds to the conversation.
use mathlib.Core.Path.{subst}
use mathlib.Core.List.{append_assoc}
use agent_keep.Base.{String, ◌≡◌, refl, ap, ◌∙◌, Option, none, some, List, [], ◌∷◌, ◌++◌, ok}
use agent_keep.Messages.{InternalMessage}
use agent_keep.Executor.Types.{Host}
use agent_keep.Router.Budget.{Floats}
use agent_keep.Sessions.Keys.{Turn, Session, user_turn, reply_turn}
use agent_keep.Core.Model.{Providers}
use agent_keep.Core.Handle.{
  SessionManager, Seams, Agent, add_inbound, add_outbound, confirm, model_turn, respond, handle,
}
use agent_keep.Core.Ensures.{
  IsManager, Ensures, bind-Ensures, Ensures-map, Rests, call_sessions-Ensures, call_turn-Rests,
  record_past-Rests, relevant-Rests, recalled-Rests, known_facts-Rests, command-Rests,
}

module _ {V W F S : Type 0} (host : Host V) (floats : Floats F) (out : Providers V W)
    (manager : SessionManager S) (seams : Seams W) (laws : IsManager manager) where
  -- The session's turns, as the manager holds them.
  abbrev turns_at : Agent V W F S → String → List Turn
  turns_at a i = laws.turns_of a.sessions i

  -- The session has the message's turn more.
  abbrev IsTold : Agent V W F S → String → InternalMessage → Agent V W F S → Session → Type 0
  IsTold a i message b told =
      (told.session_id ≡ i) × (turns_at b i ≡ turns_at a i ++ user_turn message ∷ [])

  -- The session has a reply's turn more, and the sender is told its text.
  abbrev IsSaid : Agent V W F S → String → Agent V W F S → String → Type 0
  IsSaid a i b text = turns_at b i ≡ turns_at a i ++ reply_turn text ∷ []

  -- The session has the message's turn and the reply's more.
  abbrev pub IsExchange : Agent V W F S → String → InternalMessage → Agent V W F S → String → Type 0
  IsExchange a i message b text =
      turns_at b i ≡ turns_at a i ++ (user_turn message ∷ reply_turn text ∷ [])

  add_inbound-IsTold :
      (a : Agent V W F S) (session : Session) (message : InternalMessage)
      → Ensures
          (IsTold a session.session_id message)
          (add_inbound host floats out manager seams a session message)
  unfolding add_inbound
  add_inbound-IsTold a session message =
      bind-Ensures _ (IsTold a session.session_id message) _ _ (call_sessions-Ensures a _)
        (λ b told e.
          let (same, grown) = laws.told a.sessions b.sessions session.session_id message told e in
          bind-Ensures (Rests b) (IsTold a session.session_id message) _ _
            (record_past-Rests b told seams.history)
            (λ c _ rests. (same, ap (λ s. laws.turns_of s session.session_id) rests ∙ grown)))

  add_outbound-IsSaid :
      (a : Agent V W F S) (session : Session) (text : String)
      → Ensures
          (IsSaid a session.session_id)
          (add_outbound host floats out manager seams a session text)
  unfolding add_outbound
  add_outbound-IsSaid a session text =
      bind-Ensures _ (IsSaid a session.session_id) _ _ (call_sessions-Ensures a _) (λ b said e.
        let (same, grown) = laws.said a.sessions b.sessions session.session_id text said e in
        bind-Ensures (Rests b) (IsSaid a session.session_id) _ _
          (record_past-Rests b said seams.history)
          (λ c _ rests. ap (λ s. laws.turns_of s session.session_id) rests ∙ grown))

  -- Sessions that are as they were show the same turns.
  turns-Rests :
      (a b : Agent V W F S) (i : String) → b.sessions ≡ a.sessions → turns_at b i ≡ turns_at a i
  turns-Rests a b i e = ap (λ s. laws.turns_of s i) e

  -- A reply behind the message's turn, with calls between them that leave the sessions alone.
  exchanged :
      (a b c : Agent V W F S) (i : String) (message : InternalMessage) (told : Session)
      (text : String)
      → IsTold a i message b told
      → c.sessions ≡ b.sessions
      → Ensures (IsExchange a i message) (add_outbound host floats out manager seams c told text)
  exchanged a b c i message told text (same, grown) rests =
      Ensures-map (IsSaid c told.session_id) (IsExchange a i message)
        (add_outbound host floats out manager seams c told text)
        (λ d t said.
          subst (λ j. IsSaid c j d t) same said
          ∙ ap (λ ts. ts ++ reply_turn t ∷ []) (turns-Rests b c i rests ∙ grown)
          ∙ append_assoc (turns_at a i) (user_turn message ∷ []) (reply_turn t ∷ []))
        (add_outbound-IsSaid c told text)

  confirm-IsExchange :
      (a : Agent V W F S) (session : Session) (message : InternalMessage) (text : String)
      → Ensures
          (IsExchange a session.session_id message)
          (confirm host floats out manager seams a session message text)
  unfolding confirm
  confirm-IsExchange a session message text =
      bind-Ensures (IsTold a session.session_id message) (IsExchange a session.session_id message) _
        _ (add_inbound-IsTold a session message)
        (λ b told h. exchanged a b b session.session_id message told text h refl)

  model_turn-IsExchange :
      (a : Agent V W F S) (session : Session) (message : InternalMessage)
      → Ensures
          (IsExchange a session.session_id message)
          (model_turn host floats out manager seams a session message)
  unfolding model_turn
  model_turn-IsExchange a session message =
      let P = IsExchange a session.session_id message in
      bind-Ensures (Rests a) P _ _ (relevant-Rests a session message seams.history)
        (λ b retrieved e.
          bind-Ensures (IsTold b session.session_id message) P _ _
            (add_inbound-IsTold b session message)
            (λ c told h.
              bind-Ensures (Rests c) P _ _ (recalled-Rests c message seams.recall) (λ d memories f.
                bind-Ensures (Rests d) P _ _ (known_facts-Rests d seams.facts_block) (λ g facts k.
                  bind-Ensures (Rests g) P _ _ (call_turn-Rests g _) (λ l reply m.
                    exchanged a c l session.session_id message told reply.text
                      (
                        h.0,
                        h.1
                            ∙ ap (λ ts. ts ++ user_turn message ∷ [])
                                (turns-Rests a b session.session_id e),
                      )
                      (m ∙ k ∙ f))))))

  respond-IsExchange :
      (a : Agent V W F S) (session : Session) (message : InternalMessage)
      (confirmation : Option String)
      → Ensures
          (IsExchange a session.session_id message)
          (respond host floats out manager seams a session message confirmation)
  unfolding respond
  respond-IsExchange a session message (some text) = confirm-IsExchange a session message text
  respond-IsExchange a session message none = model_turn-IsExchange a session message

  -- What an answered message has made of its session.
  abbrev pub IsAnswered : Agent V W F S → InternalMessage → Agent V W F S → String → Type 0
  IsAnswered a message b text =
      (s : S) × (session : Session) × (manager.session_for a.sessions message ≡ (s, ok session))
      × (turns_at b session.session_id
          ≡ session.turns ++ (user_turn message ∷ reply_turn text ∷ []))

  handle-Ensures :
      (a : Agent V W F S) (message : InternalMessage)
      → Ensures (IsAnswered a message) (handle host floats out manager seams a message)
  unfolding handle
  handle-Ensures a message =
      let P = IsAnswered a message in
      bind-Ensures _ P _ _ (call_sessions-Ensures a _) (λ b session e.
        bind-Ensures (Rests b) P _ _
          (command-Rests seams b message message.sender.kind seams.handle_command)
          (λ c o rests.
            Ensures-map (IsExchange c session.session_id message) P
              (respond host floats out manager seams c session message o)
              (λ d t ex. (
                b.sessions,
                session,
                e,
                ex
                    ∙ ap (λ ts. ts ++ (user_turn message ∷ reply_turn t ∷ []))
                        (turns-Rests b c session.session_id rests
                          ∙ laws.opened a.sessions b.sessions message session e),
              ))
              (respond-IsExchange c session message o)))

  -- Where a message is answered, by the command surface or by the model and however many tools it
  -- called, the session that the manager gave for it has exactly two turns more: the message as it
  -- came, and the text that the sender is told.
  pub handle-IsAnswered :
      (a b : Agent V W F S) (message : InternalMessage) (text : String)
      → handle host floats out manager seams a message ≡ (b, ok text)
      → IsAnswered a message b text
  handle-IsAnswered a b message text e =
      subst (λ p. Ensures (IsAnswered a message) p) e (handle-Ensures a message)
