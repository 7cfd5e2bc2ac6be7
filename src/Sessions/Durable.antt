-- ===== src/Sessions/Durable.antt =====
-- Memory and database of sqlite_persistence.py, with statements that fail and with restarts.
use agent_keep.Base.{
  String, Bool, true, false, ◌≡◌, refl, sym, ap, ◌∙◌, inl, inr, Option, none, some, List, [], ◌∷◌,
  ◌++◌, Result, ok, err, arith, str_eq, eq_iff, if◌then◌else◌, Bool-cases, Option_elim,
}
use agent_keep.Base.Dict
use agent_keep.Base.Dict.{Dict}
use agent_keep.Messages.{InternalMessage}
use agent_keep.Sessions.Keys.{
  Turn, Session, add_message, add_reply, append_turn, user_turn, reply_turn, session_key,
}
use agent_keep.Sessions.Store.{
  Error, database_error, Op, open_session, message_turn, answer_turn, Tables, SqliteSessionManager,
  boot, load_turns, cached_or_fetched, fetched_at, session_for, pop_turn, last_turn, record_turn,
  written, record_last_turn, on_session, step, run,
}

pub load_turns-append :
    (rows : List (String × Turn)) (i j : String) (t : Turn)
    → load_turns (rows ++ (i, t) ∷ []) j
      ≡ (if str_eq i j then load_turns rows j ++ t ∷ [] else load_turns rows j)
unfolding load_turns
load_turns-append [] i j t = refl
load_turns-append ((k, u) ∷ rows) i j t = ground (arith, load_turns-append rows i j t)

pop_turn-append : (ts : List Turn) (t : Turn) → pop_turn (ts ++ t ∷ []) ≡ ts
unfolding pop_turn
pop_turn-append [] t = refl
pop_turn-append (u ∷ []) t = refl
pop_turn-append (u ∷ v ∷ ts) t = ap (◌∷◌ u) (pop_turn-append (v ∷ ts) t)

last_turn-append : (ts : List Turn) (t : Turn) → last_turn (ts ++ t ∷ []) ≡ some t
unfolding last_turn
last_turn-append [] t = refl
last_turn-append (u ∷ []) t = refl
last_turn-append (u ∷ v ∷ ts) t = last_turn-append (v ∷ ts) t

-- Every session in memory holds the turns that the database holds for it, in their order.
abbrev pub IsSynced : SqliteSessionManager → Type 0
IsSynced m =
    (i : String) (s : Session)
    → Dict.get m.sessions i ≡ some s
    → (s.session_id ≡ i) × (s.turns ≡ load_turns m.tables.turn_rows i)

-- What appending a turn comes to: written through, or taken back.
pub record_last_turn_cases {κ} :
    (P : SqliteSessionManager × Option Error → Type κ) (m : SqliteSessionManager) (i : String)
    (s : Session) (t : Turn) (works : Bool)
    → (works ≡ true
        → P (
          record m {
            tables = record_turn m.tables s.session_id t;
            sessions = Dict.put m.sessions i (append_turn s t);
          },
          none,
        ))
    → (works ≡ false → P (record m { sessions = Dict.put m.sessions i s }, some database_error))
    → P (record_last_turn m i (append_turn s t) works)
unfolding record_last_turn
record_last_turn_cases P m i s t true kept lost = rw (last_turn-append, written) (kept refl)
record_last_turn_cases P m i s t false kept lost =
    rw (last_turn-append, written, pop_turn-append) (lost refl)

-- A new row of another session changes nothing that is loaded for this one.
pub append-IsSynced :
    (m : SqliteSessionManager) (i : String) (s : Session) (t : Turn) (works : Bool)
    → Dict.get m.sessions i ≡ some s
    → IsSynced m
    → IsSynced (record_last_turn m i (append_turn s t) works).0
append-IsSynced m i s t works e v =
    let (a, b) = v i s e in
    record_last_turn_cases (λ p. IsSynced p.0) m i s t works
      (λ _ j u f.
        let rows = load_turns-append m.tables.turn_rows i j t in
        let held = Dict.get-put m.sessions i j (append_turn s t) in
        elim (Bool-cases (str_eq i j)) [
          | inl same ↦
              let q : append_turn s t ≡ u = ground (arith) in
              let k : i ≡ j = (eq_iff i j).0 same in
              (
                ap (λ (w : Session). w.session_id) (sym q) ∙ a ∙ k,
                rw (a, rows, same, sym k, sym b) (ap (λ (w : Session). w.turns) (sym q)),
              )
          | inr other ↦ let (c, d) = v j u (ground arith) in (c, rw a (d ∙ sym (ground arith)))
        ])
      (λ _ j u f.
        let held = Dict.get-put m.sessions i j s in
        elim (Bool-cases (str_eq i j)) [
          | inl same ↦ v j u (ground (arith, eq_iff i j))
          | inr other ↦ v j u (ground arith)
        ])

open-IsSynced :
    (m : SqliteSessionManager) (message : InternalMessage) (works : Bool)
    → IsSynced m
    → IsSynced (session_for m message works).0
unfolding session_for
open-IsSynced m message works v = opened (session_key m.definition message)
  where
    fetched :
        (key : String) (b : Bool) (o : Option Session) → IsSynced (cached_or_fetched m key b o).0
    fetched key b (some s) = v
    fetched key false none = v
    fetched key true none = λ j u f.
        let s : Session = record { session_id = key; turns = load_turns m.tables.turn_rows key } in
        let held = Dict.get-put m.sessions key j s in
        elim (Bool-cases (str_eq key j)) [
          | inl same ↦
              let q : s ≡ u = ground arith in
              let k : key ≡ j = (eq_iff key j).0 same in
              (
                ap (λ (w : Session). w.session_id) (sym q) ∙ k,
                ap (λ (w : Session). w.turns) (sym q) ∙ ap (load_turns m.tables.turn_rows) k,
              )
          | inr other ↦ v j u (ground arith)
        ]

    opened : (r : Result String String) → IsSynced (fetched_at m works r).0
    opened (err e) = v
    opened (ok key) = fetched key works (Dict.get m.sessions key)

pub step-IsSynced : (m : SqliteSessionManager) (op : Op) → IsSynced m → IsSynced (step m op)
unfolding step add_message add_reply
step-IsSynced m (open_session message works) v = open-IsSynced m message works v
step-IsSynced m (message_turn i message works) v =
    Option_elim (λ o. IsSynced (on_session m i works (λ s. add_message s message) o).0)
      (Dict.get m.sessions i) (λ _. v) (λ s e. append-IsSynced m i s (user_turn message) works e v)
step-IsSynced m (answer_turn i text works) v =
    Option_elim (λ o. IsSynced (on_session m i works (λ s. add_reply s text) o).0)
      (Dict.get m.sessions i) (λ _. v) (λ s e. append-IsSynced m i s (reply_turn text) works e v)

-- Memory and database never diverge: after any history, statements that failed included, every
-- session in memory holds exactly the turns that the database holds for it, in their order.
pub run-IsSynced :
    (definition : Option String) (tables : Tables) (ops : List Op)
    → IsSynced (run (boot definition tables) ops)
unfolding run Dict.get
run-IsSynced definition tables ops = go (boot definition tables) ops (λ i s e. absurd (cc e))
  where
    go : (m : SqliteSessionManager) (ops : List Op) → IsSynced m → IsSynced (run m ops)
    go m [] v = v
    go m (op ∷ ops) v = go (step m op) ops (step-IsSynced m op v)

-- A restart loses nothing: whatever session a history left in memory, a manager that opens the same
-- file afterwards answers the next message of that session with the same session.
pub restart_reloads :
    (definition : Option String) (tables : Tables) (ops : List Op) (message : InternalMessage)
    (i : String) (s : Session)
    → session_key definition message ≡ ok i
    → Dict.get (run (boot definition tables) ops).sessions i ≡ some s
    → (session_for (boot definition (run (boot definition tables) ops).tables) message true).1
      ≡ ok s
unfolding session_for Dict.get
restart_reloads definition tables ops message i s k e =
    let (a, b) = run-IsSynced definition tables ops i s e in rw (k, fetched_at) (cc (a, b))
