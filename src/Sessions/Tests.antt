-- ===== src/Sessions/Tests.antt =====
-- A conversation, and the theorems about sessions at work on it.
use agent_keep.Base.{String, true, false, ◌≡◌, refl, Option, none, some, List, [], ◌∷◌, ok}
use agent_keep.Base.Dict
use agent_keep.Messages.{InternalMessage, human}
use agent_keep.Sessions.Keys.{Session, session_key, add_message, add_reply, user_turn}
use agent_keep.Sessions.Store.{
  Tables, boot, Op, open_session, message_turn, answer_turn, session_for, single_run, run, step,
  record_last_turn, last_turn, pop_turn, load_turns,
}
use agent_keep.Sessions.Durable.{IsSynced, run-IsSynced, restart_reloads}
use agent_keep.Sessions.Refine.{run-single_run}

abbrev message : Option String → String → InternalMessage
message platform_id conversation = record {
  id = "m1";
  ts = "now";
  channel = record { platform = "slack"; conversation_id = conversation };
  sender = record {
    kind = human;
    platform_id = platform_id;
    internal_user_id = none;
    verified = true;
  };
  content = record { block_type = "text"; text = some "hi"; trigger_id = none; source = none } ∷ [];
  provenance = record { adapter = "slack"; trust = "untrusted" };
}

abbrev fresh : Tables
fresh = record { session_ids = []; turn_rows = [] }

-- The second write fails.
abbrev ops : List Op
ops =
    open_session (message (some "u1") "room") true
    ∷ message_turn "single" (message (some "u1") "room") true
    ∷ answer_turn "single" "hello" false
    ∷ []

run-IsSynced_example : IsSynced (run (boot none fresh) ops)
run-IsSynced_example = run-IsSynced none fresh ops

-- The one turn that was written.
abbrev kept : Session
kept = record { session_id = "single"; turns = user_turn (message (some "u1") "room") ∷ [] }

restart_example :
    (session_for (boot none (run (boot none fresh) ops).tables) (message (some "u2") "hall") true).1
    ≡ ok kept
unfolding session_key run step session_for record_last_turn add_message add_reply last_turn pop_turn
    load_turns Dict.get Dict.put
restart_example =
    restart_reloads none fresh ops (message (some "u2") "hall") "single" kept refl refl

-- The same, but every write goes through.
abbrev lucky : List Op
lucky =
    open_session (message (some "u1") "room") true
    ∷ message_turn "single" (message (some "u1") "room") true
    ∷ answer_turn "single" "hello" true
    ∷ []

single_example :
    (run (boot none fresh) lucky).sessions
    ≡ (single_run (record { definition = none; sessions = [] }) lucky).sessions
single_example = run-single_run none lucky (refl, (refl, (refl, tt)))
