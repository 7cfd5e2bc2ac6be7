-- ===== src/Channel/Reply.antt =====
-- `ReplyDelivery` of channel_lifecycle.py: messages that were accepted, and the background tasks that
-- wait for their replies and post them. A future is named by its place in the queue's order.
use agent_keep.Base.{
  ℕ, String, Bool, Option, none, some, List, [], ◌∷◌, ◌++◌, length, ◌==◌, if◌then◌else◌,
}
use agent_keep.Messages.{InternalMessage}

-- Where a delivery task stands: it waits for the turn's reply, or it is posting it.
pub data Phase : Type 0 where
  awaiting : Phase
  posting : String → Phase

pub record Task : Type 0 where
  pub reply : ℕ
  pub message : InternalMessage
  pub phase : Phase

-- A reply that was posted.
pub record Post : Type 0 where
  pub reply : ℕ
  pub message : InternalMessage
  pub text : String

pub record ReplyDelivery : Type 0 where
  pub queue : List InternalMessage
  pub reply_tasks : List Task
  pub posted : List Post

abbrev pub new_delivery : ReplyDelivery
new_delivery = record { queue = []; reply_tasks = []; posted = [] }

-- What happens: a message is accepted; the core sets a future's result or its exception; the wait for
-- it times out; the adapter's call to post goes through or raises; the shutdown cancels all tasks.
pub data Event : Type 0 where
  accept : InternalMessage → Event
  set_result : ℕ → String → Event
  set_exception time_out post_done post_failed : ℕ → Event
  cancel_inflight : Event

-- A task that waits, on what ends its wait.
abbrev pub ended : Bool → Task → Phase → Option Task
ended here task awaiting = if here then none else some task
ended here task (posting text) = some task

abbrev pub resolved : Bool → String → Task → Phase → Option Task
resolved here text task awaiting =
    if here then some (record task { phase = posting text }) else some task
resolved here text task (posting old) = some task

-- A task that posts, once the call has returned or raised.
abbrev pub returned : Bool → Task → Phase → Option Task
returned here task awaiting = some task
returned here task (posting text) = if here then none else some task

-- What becomes of a task: it goes on, or it is done and no longer held.
unfoldable pub after : Event → Task → Option Task
after (accept message) task = some task
after (set_result n text) task = resolved (task.reply == n) text task task.phase
after (set_exception n) task = ended (task.reply == n) task task.phase
after (time_out n) task = ended (task.reply == n) task task.phase
after (post_done n) task = returned (task.reply == n) task task.phase
after (post_failed n) task = returned (task.reply == n) task task.phase
after cancel_inflight task = none

abbrev pub post_of : Bool → Task → Phase → List Post
post_of here task awaiting = []
post_of here task (posting text) =
    if here then record { reply = task.reply; message = task.message; text = text } ∷ [] else []

-- What a task has posted.
unfoldable pub delivered : Event → Task → List Post
delivered (post_done n) task = post_of (task.reply == n) task task.phase
delivered _ task = []

abbrev pub keep_task : Option Task → List Task → List Task
keep_task none tasks = tasks
keep_task (some task) tasks = task ∷ tasks

unfoldable pub keep_tasks : Event → List Task → List Task
keep_tasks e [] = []
keep_tasks e (task ∷ tasks) = keep_task (after e task) (keep_tasks e tasks)

unfoldable pub deliver_all : Event → List Task → List Post
deliver_all e [] = []
deliver_all e (task ∷ tasks) = delivered e task ++ deliver_all e tasks

-- `accept`: the item goes into the queue, and a task is held that waits for its future.
abbrev pub queued : Event → List InternalMessage → List InternalMessage
queued (accept message) queue = queue ++ message ∷ []
queued _ queue = queue

abbrev pub new_tasks : Event → List InternalMessage → List Task
new_tasks (accept message) queue =
    record { reply = length queue; message = message; phase = awaiting } ∷ []
new_tasks _ queue = []

unfoldable pub step : ReplyDelivery → Event → ReplyDelivery
step s e = record {
  queue = queued e s.queue;
  reply_tasks = keep_tasks e s.reply_tasks ++ new_tasks e s.queue;
  posted = s.posted ++ deliver_all e s.reply_tasks;
}

unfoldable pub run : ReplyDelivery → List Event → ReplyDelivery
run s [] = s
run s (e ∷ es) = run (step s e) es
