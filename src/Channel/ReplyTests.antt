-- ===== src/Channel/ReplyTests.antt =====
-- Two messages, one answered and one timed out, for the theorem about `ReplyDelivery`.
use agent_keep.Base.{ℕ, ◌+◌, ◌≤◌, String, true, ◌≡◌, refl, none, some, List, [], ◌∷◌}
use agent_keep.Messages.{InternalMessage, human}
use agent_keep.Channel.Reply.{
  new_delivery, Event, accept, set_result, time_out, post_done, cancel_inflight, after, delivered,
  keep_tasks, deliver_all, step, run,
}
use agent_keep.Channel.Once.{tasks_for, posts_for}
use agent_keep.Channel.Told.{SaysTold, WasSet}
use agent_keep.Channel.Sources.{OfPosts, IsSource, run-IsDelivery}

abbrev asks : String → InternalMessage
asks id = record {
  id = id;
  ts = "now";
  channel = record { platform = "webex"; conversation_id = "noc" };
  sender = record {
    kind = human;
    platform_id = some "u";
    internal_user_id = none;
    verified = true;
  };
  content = [];
  provenance = record { adapter = "webex"; trust = "untrusted" };
}

-- A second result, and a second return of the post, change nothing.
abbrev events : List Event
events =
    accept (asks "m1")
    ∷ accept (asks "m2")
    ∷ set_result 0 "hello"
    ∷ set_result 0 "again"
    ∷ time_out 1
    ∷ post_done 0
    ∷ post_done 0
    ∷ set_result 1 "late"
    ∷ post_done 1
    ∷ []

delivered_once :
    (run new_delivery events).posted
    ≡ record { reply = 0; message = asks "m1"; text = "hello" } ∷ []
unfolding run step keep_tasks deliver_all after delivered
delivered_once = refl

run-IsDelivery_example :
    OfPosts (IsSource (run new_delivery events).queue) (run new_delivery events).posted
    × SaysTold (WasSet events) (run new_delivery events).posted
    × ((n : ℕ)
        → tasks_for n (run new_delivery events).reply_tasks
            + posts_for n (run new_delivery events).posted
          ≤ 1)
    × ((step (run new_delivery events) cancel_inflight).reply_tasks ≡ [])
run-IsDelivery_example = run-IsDelivery events
