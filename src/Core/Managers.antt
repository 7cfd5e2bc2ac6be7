-- ===== src/Core/Managers.antt =====
-- The manager of single_session.py behind the interface that `handle` of core.py uses.
use agent_keep.Base.{
  String, true, false, ◌≡◌, refl, sym, ap, ◌∙◌, Option, none, some, List, [], ◌∷◌, ◌++◌, Result, ok,
  err, str_eq, eq_refl, if◌then◌else◌, ◌⊎◌, inl, inr, Bool-cases, eq_iff, eq_of_some, ok-injective,
}
use mathlib.Core.Path.{subst}
use agent_keep.Base.Dict
use agent_keep.Messages.{InternalMessage}
use agent_keep.Sessions.Keys.{Turn, Session, append_turn, user_turn, reply_turn, session_key}
use agent_keep.Sessions.Store.{
  SingleSessionManager, held, held_at, single_session_for, Error, value_error, database_error,
  no_session,
}
use agent_keep.Core.Handle.{SessionManager}
use agent_keep.Core.Ensures.{IsManager}

abbrev pub shown : Error → String
shown (value_error e) = e
shown database_error = "SessionDatabaseError"
shown no_session = "no session"

abbrev pub with_shown : {A : Type 0} → Result Error A → Result String A
with_shown (ok x) = ok x
with_shown (err e) = err (shown e)

-- Every session stands under its own id.
abbrev pub IsKeyed : SingleSessionManager → Type 0
IsKeyed m = (i : String) (s : Session) → Dict.get m.sessions i ≡ some s → s.session_id ≡ i

pub put-IsKeyed :
    (m : SingleSessionManager) (k : String) (v : Session)
    → v.session_id ≡ k
    → IsKeyed m
    → IsKeyed (record m { sessions = Dict.put m.sessions k v })
put-IsKeyed m k v h keyed i s e = put_cases (Bool-cases (str_eq k i))
  where
    put_cases : (str_eq k i ≡ true) ⊎ (str_eq k i ≡ false) → s.session_id ≡ i
    put_cases (inl same) =
        let q : some v ≡ some s =
          sym (
            Dict.get-put m.sessions k i v
            ∙ ap (λ b. if b then some v else Dict.get m.sessions i) same)
          ∙ e in
        ap (λ (u : Session). u.session_id) (sym (eq_of_some q)) ∙ h ∙ (eq_iff k i).0 same
    put_cases (inr other) = keyed i s (
        sym (
          Dict.get-put m.sessions k i v
          ∙ ap (λ b. if b then some v else Dict.get m.sessions i) other)
        ∙ e)

get-put_same :
    (m : SingleSessionManager) (k : String) (v : Session)
    → Dict.get (Dict.put m.sessions k v) k ≡ some v
get-put_same m k v =
    Dict.get-put m.sessions k k v
    ∙ ap (λ b. if b then some v else Dict.get m.sessions k) (eq_refl k)

-- What asking for a session comes to.
abbrev pub IsOpened : SingleSessionManager × Result Error Session → Type 0
IsOpened (n, ok session) = IsKeyed n × (Dict.get n.sessions session.session_id ≡ some session)
IsOpened (n, err e) = IsKeyed n

held-IsOpened :
    (m : SingleSessionManager) (key : String) (o : Option Session)
    → Dict.get m.sessions key ≡ o
    → IsKeyed m
    → IsOpened ((held m key o).0, ok (held m key o).1)
held-IsOpened m key none e keyed = (put-IsKeyed m key _ refl keyed, get-put_same m key _)
held-IsOpened m key (some s) e keyed = (keyed, ap (Dict.get m.sessions) (keyed key s e) ∙ e)

pub single_session_for-IsOpened :
    (m : SingleSessionManager) (message : InternalMessage)
    → IsKeyed m
    → IsOpened (single_session_for m message)
unfolding single_session_for
single_session_for-IsOpened m message keyed = by_key (session_key m.definition message)
  where
    by_key : (r : Result String String) → IsOpened (held_at m r)
    by_key (err e) = keyed
    by_key (ok key) = held-IsOpened m key (Dict.get m.sessions key) refl keyed

pub IsOpened-IsKeyed : (p : SingleSessionManager × Result Error Session) → IsOpened p → IsKeyed p.0
IsOpened-IsKeyed (n, ok session) h = h.0
IsOpened-IsKeyed (n, err e) h = h

abbrev pub Keyed : Type 0
Keyed = (m : SingleSessionManager) × IsKeyed m

-- A method of the session with that id: the session keeps its id.
on_held :
    (k : Keyed) (i : String) (t : Turn) (o : Option Session)
    → Dict.get k.0.sessions i ≡ o
    → Keyed × Result String Session
on_held k i t none e = (k, err "no session")
on_held (m, keyed) i t (some s) e = (
  (
    record m { sessions = Dict.put m.sessions i (append_turn s t) },
    put-IsKeyed m i (append_turn s t) (keyed i s e) keyed,
  ),
  ok (append_turn s t),
)

unfoldable pub single_sessions : SessionManager Keyed
unfolding on_held
single_sessions = record {
  session_for = λ k message. (
    (
      (single_session_for k.0 message).0,
      IsOpened-IsKeyed (single_session_for k.0 message)
          (single_session_for-IsOpened k.0 message k.1),
    ),
    with_shown (single_session_for k.0 message).1,
  );
  add_message = λ k i message. on_held k i (user_turn message) (Dict.get k.0.sessions i) refl;
  add_reply = λ k i text. on_held k i (reply_turn text) (Dict.get k.0.sessions i) refl;
}

abbrev pub turns_or : Option Session → List Turn
turns_or none = []
turns_or (some s) = s.turns

abbrev pub turns_in : Keyed → String → List Turn
turns_in k i = turns_or (Dict.get k.0.sessions i)

-- What an appended turn comes to.
abbrev IsGrown : Keyed → String → Turn → Keyed × Result String Session → Type 0
IsGrown k i t (l, ok session) = (session.session_id ≡ i) × (turns_in l i ≡ turns_in k i ++ t ∷ [])
IsGrown k i t (l, err e) = Unit

on_held-IsGrown :
    (k : Keyed) (i : String) (t : Turn) (o : Option Session) (e : Dict.get k.0.sessions i ≡ o)
    → IsGrown k i t (on_held k i t o e)
unfolding on_held
on_held-IsGrown k i t none e = tt
on_held-IsGrown (m, keyed) i t (some s) e = (
  keyed i s e,
  ap turns_or (get-put_same m i (append_turn s t)) ∙ sym (ap (λ o. turns_or o ++ t ∷ []) e),
)

shown_ok :
    (p : SingleSessionManager × Result Error Session) (session : Session)
    → IsOpened p
    → with_shown p.1 ≡ ok session
    → Dict.get p.0.sessions session.session_id ≡ some session
shown_ok (n, ok s) session h e = rw (sym (ok-injective e)) h.1
shown_ok (n, err f) session h e = cc

pub single_sessions-IsManager : IsManager single_sessions
unfolding single_sessions
single_sessions-IsManager = record {
  turns_of = turns_in;
  opened = λ k l message session e. ap turns_or (
      ap (λ (p : Keyed × Result String Session). Dict.get p.0.0.sessions session.session_id) (sym e)
      ∙ shown_ok (single_session_for k.0 message) session
          (single_session_for-IsOpened k.0 message k.1) (ap (λ p. p.1) e));
  told = λ k l i message session e.
      subst (IsGrown k i (user_turn message)) e
        (on_held-IsGrown k i (user_turn message) (Dict.get k.0.sessions i) refl);
  said = λ k l i text session e.
      subst (IsGrown k i (reply_turn text)) e
        (on_held-IsGrown k i (reply_turn text) (Dict.get k.0.sessions i) refl);
}
