-- ===== src/Sessions/Refine.antt =====
-- The sessions of sqlite_persistence.py against those of single_session.py.
use agent_keep.Base.{
  String, true, false, ◌≡◌, refl, ap, Option, none, some, List, [], ◌∷◌, Result, ok, err, arith,
  str_eq, Option_elim, All,
}
use mathlib.Core.Path.{subst}
use agent_keep.Base.Dict
use agent_keep.Base.Dict.{Dict}
use agent_keep.Messages.{InternalMessage}
use agent_keep.Sessions.Keys.{
  Turn, Session, add_message, add_reply, append_turn, user_turn, reply_turn, session_key,
}
use agent_keep.Sessions.Store.{
  Op, open_session, message_turn, answer_turn, SingleSessionManager, held, held_at,
  single_session_for, SqliteSessionManager, boot, load_turns, cached_or_fetched, fetched_at,
  session_for, record_last_turn, on_session, step, run, change_session, single_step, single_run,
}
use agent_keep.Sessions.Durable.{IsSynced, load_turns-append, record_last_turn_cases, step-IsSynced}

-- The database that takes every statement.
abbrev pub GoesThrough : Op → Type 0
GoesThrough (open_session message works) = works ≡ true
GoesThrough (message_turn i message works) = works ≡ true
GoesThrough (answer_turn i text works) = works ≡ true

-- The same sessions, and no row of a session that is not in memory.
abbrev pub Refines : SqliteSessionManager → SingleSessionManager → Type 0
Refines m n =
    (m.definition ≡ n.definition)
    × (m.sessions ≡ n.sessions)
    × ((i : String) → Dict.get m.sessions i ≡ none → load_turns m.tables.turn_rows i ≡ [])

-- What is absent after a write was absent before, and is another key.
absent_put :
    {V : Type 0} (d : Dict V) (k j : String) (v : V)
    → Dict.get (Dict.put d k v) j ≡ none
    → (str_eq k j ≡ false) × (Dict.get d j ≡ none)
absent_put d k j v h = ground (arith, Dict.get-put d k j v)

open-Refines :
    (m : SqliteSessionManager) (n : SingleSessionManager) (message : InternalMessage)
    → Refines m n
    → Refines (session_for m message true).0 (single_session_for n message).0
unfolding session_for single_session_for
open-Refines m n message (d, e, absent) =
    subst (λ o. Refines (session_for m message true).0 (held_at n (session_key o message)).0) d
      (opened (session_key m.definition message))
  where
    fetched :
        (key : String) (o : Option Session)
        → Dict.get m.sessions key ≡ o
        → Refines (cached_or_fetched m key true o).0 (held n key o).0
    fetched key (some s) h = (d, e, absent)
    fetched key none h =
        (d, rw (absent key h, e), λ i f. absent i (absent_put m.sessions key i _ f).1)

    opened : (r : Result String String) → Refines (fetched_at m true r).0 (held_at n r).0
    opened (err f) = (d, e, absent)
    opened (ok key) =
        subst
          (λ o. Refines (cached_or_fetched m key true (Dict.get m.sessions key)).0 (held n key o).0)
          (ap (λ d. Dict.get d key) e) (fetched key (Dict.get m.sessions key) refl)

append-Refines :
    (m : SqliteSessionManager) (n : SingleSessionManager) (i : String) (s : Session) (t : Turn)
    → Dict.get m.sessions i ≡ some s
    → IsSynced m
    → Refines m n
    → Refines
        (record_last_turn m i (append_turn s t) true).0
        (change_session n i (λ u. append_turn u t) (some s))
append-Refines m n i s t h v (d, e, absent) =
    record_last_turn_cases (λ p. Refines p.0 (change_session n i (λ u. append_turn u t) (some s))) m
      i s t true
      (λ _. (
        d,
        rw e,
        λ j f.
            let (other, gone) = absent_put m.sessions i j _ f in
            rw (load_turns-append m.tables.turn_rows s.session_id j t, (v i s h).0, other)
              (absent j gone),
      ))
      (λ f. cc)

add-Refines :
    (m : SqliteSessionManager) (n : SingleSessionManager) (i : String) (t : Turn)
    → IsSynced m
    → Refines m n
    → Refines
        (on_session m i true (λ s. append_turn s t) (Dict.get m.sessions i)).0
        (change_session n i (λ s. append_turn s t) (Dict.get n.sessions i))
add-Refines m n i t v r =
    subst
      (λ o.
        Refines (on_session m i true (λ s. append_turn s t) (Dict.get m.sessions i)).0
          (change_session n i (λ s. append_turn s t) o))
      (ap (λ d. Dict.get d i) r.1)
      (Option_elim
        (λ o.
          Refines (on_session m i true (λ s. append_turn s t) o).0
            (change_session n i (λ s. append_turn s t) o))
        (Dict.get m.sessions i) (λ _. r) (λ s h. append-Refines m n i s t h v r))

step-Refines :
    (m : SqliteSessionManager) (n : SingleSessionManager) (op : Op)
    → GoesThrough op
    → IsSynced m
    → Refines m n
    → Refines (step m op) (single_step n op)
unfolding step single_step add_message add_reply
step-Refines m n (open_session message works) g v r = rw g (open-Refines m n message r)
step-Refines m n (message_turn i message works) g v r =
    rw g (add-Refines m n i (user_turn message) v r)
step-Refines m n (answer_turn i text works) g v r = rw g (add-Refines m n i (reply_turn text) v r)

-- On a fresh database that takes every statement, the sessions are those that the manager in memory
-- keeps for the same history.
pub run-single_run :
    (definition : Option String) (ops : List Op)
    → All GoesThrough ops
    → (run (boot definition (record { session_ids = []; turn_rows = [] })) ops).sessions
      ≡ (single_run (record { definition = definition; sessions = [] }) ops).sessions
unfolding run single_run load_turns Dict.get
run-single_run definition ops g = go _ _ ops g (λ i s e. absurd (cc e)) (refl, refl, λ i e. refl)
  where
    go :
        (m : SqliteSessionManager) (n : SingleSessionManager) (ops : List Op)
        → All GoesThrough ops
        → IsSynced m
        → Refines m n
        → (run m ops).sessions ≡ (single_run n ops).sessions
    go m n [] g v r = r.1
    go m n (op ∷ ops) g v r =
        go (step m op) (single_step n op) ops g.1 (step-IsSynced m op v)
          (step-Refines m n op g.0 v r)
