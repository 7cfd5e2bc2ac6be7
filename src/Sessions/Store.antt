-- ===== src/Sessions/Store.antt =====
-- single_session.py and sqlite_persistence.py: the sessions in memory, and the sessions that write
-- every turn through to the database. A session object that was handed out is the one in the cache,
-- so it is named by its id. The tables are those of the opened file, in `seq` order; an SQL
-- statement goes through or raises, as a Boolean of the operation says.
use agent_keep.Base.{
  String, Bool, true, false, Option, none, some, List, [], ◌∷◌, ◌++◌, Result, ok, err, str_eq,
  contains, if◌then◌else◌,
}
use agent_keep.Base.Dict
use agent_keep.Base.Dict.{Dict}
use agent_keep.Messages.{InternalMessage}
use agent_keep.Sessions.Keys.{Turn, Session, add_message, add_reply, session_key}

-- Why an operation raised.
pub data Error : Type 0 where
  value_error : String → Error
  database_error no_session : Error

-- The caller's use of a session manager: ask for a message's session, then add to the session of an
-- id the message, or a reply.
pub data Op : Type 0 where
  open_session : InternalMessage → Bool → Op
  message_turn : String → InternalMessage → Bool → Op
  answer_turn : String → String → Bool → Op

pub record SingleSessionManager : Type 0 where
  pub definition : Option String
  pub sessions : Dict Session

-- `SingleSessionManager.session_for`, once the key is known.
abbrev pub held : SingleSessionManager → String → Option Session → SingleSessionManager × Session
held m key (some session) = (m, session)
held m key none =
    let session : Session = record { session_id = key; turns = [] } in
    (record m { sessions = Dict.put m.sessions key session }, session)

abbrev pub held_at :
    SingleSessionManager → Result String String → SingleSessionManager × Result Error Session
held_at m (err e) = (m, err (value_error e))
held_at m (ok key) = let (n, session) = held m key (Dict.get m.sessions key) in (n, ok session)

unfoldable pub single_session_for :
    SingleSessionManager → InternalMessage → SingleSessionManager × Result Error Session
single_session_for m message = held_at m (session_key m.definition message)

-- The tables `foundry_sessions` and `foundry_transcript_turns`.
pub record Tables : Type 0 where
  pub session_ids : List String
  pub turn_rows : List (String × Turn)

pub record SqliteSessionManager : Type 0 where
  pub definition : Option String
  pub tables : Tables
  pub sessions : Dict Session

-- A manager on an opened file: `__init__` once the pragmas and the schema statements went through.
abbrev pub boot : Option String → Tables → SqliteSessionManager
boot definition tables = record { definition = definition; tables = tables; sessions = [] }

-- `SELECT ... WHERE session_id = ? ORDER BY seq`
unfoldable pub load_turns : List (String × Turn) → String → List Turn
load_turns [] session_id = []
load_turns ((i, turn) ∷ rows) session_id =
    let rest = load_turns rows session_id in if str_eq i session_id then turn ∷ rest else rest

-- `INSERT INTO foundry_sessions ... ON CONFLICT DO NOTHING`
abbrev pub insert_session : List String → String → List String
insert_session ids i = if contains ids i then ids else ids ++ i ∷ []

-- `session_for` of a session that is not cached; the Boolean says whether the statements go through.
abbrev pub fetch :
    SqliteSessionManager → String → Bool → SqliteSessionManager × Result Error Session
fetch m key false = (m, err database_error)
fetch m key true =
    let session : Session = record {
      session_id = key;
      turns = load_turns m.tables.turn_rows key;
    } in
    (
      record m {
        tables = record {
          session_ids = insert_session m.tables.session_ids key;
          turn_rows = m.tables.turn_rows;
        };
        sessions = Dict.put m.sessions key session;
      },
      ok session,
    )

abbrev pub cached_or_fetched :
    SqliteSessionManager
    → String
    → Bool
    → Option Session
    → SqliteSessionManager × Result Error Session
cached_or_fetched m key works (some session) = (m, ok session)
cached_or_fetched m key works none = fetch m key works

abbrev pub fetched_at :
    SqliteSessionManager → Bool → Result String String → SqliteSessionManager × Result Error Session
fetched_at m works (err e) = (m, err (value_error e))
fetched_at m works (ok key) = cached_or_fetched m key works (Dict.get m.sessions key)

unfoldable pub session_for :
    SqliteSessionManager → InternalMessage → Bool → SqliteSessionManager × Result Error Session
session_for m message works = fetched_at m works (session_key m.definition message)

-- `self.turns.pop()`
unfoldable pub pop_turn : List Turn → List Turn
pop_turn [] = []
pop_turn (t ∷ []) = []
pop_turn (t ∷ u ∷ us) = t ∷ pop_turn (u ∷ us)

-- `self.turns[-1]`
unfoldable pub last_turn : List Turn → Option Turn
last_turn [] = none
last_turn (t ∷ []) = some t
last_turn (t ∷ u ∷ us) = last_turn (u ∷ us)

-- `record_turn`
abbrev pub record_turn : Tables → String → Turn → Tables
record_turn tables i turn = record tables { turn_rows = tables.turn_rows ++ (i, turn) ∷ [] }

-- `_record_last_turn` of a session that has just been appended to.
abbrev pub written :
    SqliteSessionManager
    → String
    → Session
    → Option Turn
    → Bool
    → SqliteSessionManager × Option Error
written m i s (some turn) true = (
  record m { tables = record_turn m.tables s.session_id turn; sessions = Dict.put m.sessions i s },
  none,
)
written m i s _ _ = (
  record m { sessions = Dict.put m.sessions i (record s { turns = pop_turn s.turns }) },
  some database_error,
)

unfoldable pub record_last_turn :
    SqliteSessionManager → String → Session → Bool → SqliteSessionManager × Option Error
record_last_turn m i s works = written m i s (last_turn s.turns) works

-- A method of the session with that id: nobody holds one that was never handed out.
abbrev pub on_session :
    SqliteSessionManager
    → String
    → Bool
    → (Session → Session)
    → Option Session
    → SqliteSessionManager × Option Error
on_session m i works change none = (m, some no_session)
on_session m i works change (some s) = record_last_turn m i (change s) works

unfoldable pub step : SqliteSessionManager → Op → SqliteSessionManager
step m (open_session message works) = (session_for m message works).0
step m (message_turn i message works) =
    (on_session m i works (λ s. add_message s message) (Dict.get m.sessions i)).0
step m (answer_turn i text works) =
    (on_session m i works (λ s. add_reply s text) (Dict.get m.sessions i)).0

unfoldable pub run : SqliteSessionManager → List Op → SqliteSessionManager
run m [] = m
run m (op ∷ ops) = run (step m op) ops

-- The same on the sessions in memory, where no statement can fail.
abbrev pub change_session :
    SingleSessionManager → String → (Session → Session) → Option Session → SingleSessionManager
change_session m i change none = m
change_session m i change (some s) = record m { sessions = Dict.put m.sessions i (change s) }

unfoldable pub single_step : SingleSessionManager → Op → SingleSessionManager
single_step m (open_session message works) = (single_session_for m message).0
single_step m (message_turn i message works) =
    change_session m i (λ s. add_message s message) (Dict.get m.sessions i)
single_step m (answer_turn i text works) =
    change_session m i (λ s. add_reply s text) (Dict.get m.sessions i)

unfoldable pub single_run : SingleSessionManager → List Op → SingleSessionManager
single_run m [] = m
single_run m (op ∷ ops) = single_run (single_step m op) ops
