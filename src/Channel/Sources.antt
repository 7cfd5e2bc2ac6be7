-- ===== src/Channel/Sources.antt =====
-- What `ReplyDelivery` of channel_lifecycle.py posts, and for whom.
use agent_keep.Base.{
  ℕ, zero, suc, ◌+◌, ◌≤◌, String, Bool, true, false, ◌≡◌, refl, ap, Option, none, some, List, [],
  ◌∷◌, ◌++◌, length, ◌==◌, All, All-append,
}
use agent_keep.Messages.{InternalMessage}
use agent_keep.Channel.Reply.{
  Phase, awaiting, posting, Task, Post, ReplyDelivery, new_delivery, Event, accept, set_result,
  set_exception, time_out, post_done, post_failed, cancel_inflight, ended, resolved, returned,
  after, post_of, delivered, keep_task, keep_tasks, deliver_all, queued, new_tasks, step, run,
}
use agent_keep.Channel.Told.{SaysTold, WasSet, run-WasSet}
use agent_keep.Channel.Once.{tasks_for, posts_for, run_once, keep_tasks_cancelled}

-- The message that was accepted at a place of the queue's order.
unfoldable pub get_elem? : List InternalMessage → ℕ → Option InternalMessage
get_elem? [] n = none
get_elem? (m ∷ ms) zero = some m
get_elem? (m ∷ ms) (suc n) = get_elem? ms n

get_elem?-append :
    (ms ns : List InternalMessage) (n : ℕ) (m : InternalMessage)
    → get_elem? ms n ≡ some m
    → get_elem? (ms ++ ns) n ≡ some m
unfolding get_elem?
get_elem?-append [] ns n m e = cc
get_elem?-append (k ∷ ms) ns zero m e = e
get_elem?-append (k ∷ ms) ns (suc n) m e = get_elem?-append ms ns n m e

get_elem?-length :
    (ms : List InternalMessage) (m : InternalMessage)
    → get_elem? (ms ++ m ∷ []) (length ms) ≡ some m
unfolding get_elem?
get_elem?-length [] m = refl
get_elem?-length (k ∷ ms) m = get_elem?-length ms m

-- A statement about a future and a message, of every task and of every post.
abbrev OfTasks : (ℕ → InternalMessage → Type 0) → List Task → Type 0
OfTasks P ts = All (λ t. P t.reply t.message) ts

abbrev pub OfPosts : (ℕ → InternalMessage → Type 0) → List Post → Type 0
OfPosts P ps = All (λ p. P p.reply p.message) ps

module _ (P : ℕ → InternalMessage → Type 0) where
  resolved-OfTasks :
      (here : Bool) (text : String) (t : Task) (phase : Phase)
      → P t.reply t.message
      → OfTasks P (keep_task (resolved here text t phase) [])
  resolved-OfTasks here text t (posting old) h = (h, tt)
  resolved-OfTasks true text t awaiting h = (h, tt)
  resolved-OfTasks false text t awaiting h = (h, tt)

  ended-OfTasks :
      (here : Bool) (t : Task) (phase : Phase)
      → P t.reply t.message
      → OfTasks P (keep_task (ended here t phase) [])
  ended-OfTasks here t (posting old) h = (h, tt)
  ended-OfTasks true t awaiting h = tt
  ended-OfTasks false t awaiting h = (h, tt)

  returned-OfTasks :
      (here : Bool) (t : Task) (phase : Phase)
      → P t.reply t.message
      → OfTasks P (keep_task (returned here t phase) [])
  returned-OfTasks here t awaiting h = (h, tt)
  returned-OfTasks true t (posting text) h = tt
  returned-OfTasks false t (posting text) h = (h, tt)

  post_of-OfPosts :
      (here : Bool) (t : Task) (phase : Phase)
      → P t.reply t.message
      → OfPosts P (post_of here t phase)
  post_of-OfPosts here t awaiting h = tt
  post_of-OfPosts true t (posting text) h = (h, tt)
  post_of-OfPosts false t (posting text) h = tt

  after-OfTasks :
      (e : Event) (t : Task) → P t.reply t.message → OfTasks P (keep_task (after e t) [])
  unfolding after
  after-OfTasks (accept message) t h = (h, tt)
  after-OfTasks cancel_inflight t h = tt
  after-OfTasks (set_result k text) t h = resolved-OfTasks (t.reply == k) text t t.phase h
  after-OfTasks (set_exception k) t h = ended-OfTasks (t.reply == k) t t.phase h
  after-OfTasks (time_out k) t h = ended-OfTasks (t.reply == k) t t.phase h
  after-OfTasks (post_done k) t h = returned-OfTasks (t.reply == k) t t.phase h
  after-OfTasks (post_failed k) t h = returned-OfTasks (t.reply == k) t t.phase h

  delivered-OfPosts : (e : Event) (t : Task) → P t.reply t.message → OfPosts P (delivered e t)
  unfolding delivered
  delivered-OfPosts (post_done k) t h = post_of-OfPosts (t.reply == k) t t.phase h
  delivered-OfPosts (accept message) t h = tt
  delivered-OfPosts cancel_inflight t h = tt
  delivered-OfPosts (set_result k text) t h = tt
  delivered-OfPosts (set_exception k) t h = tt
  delivered-OfPosts (time_out k) t h = tt
  delivered-OfPosts (post_failed k) t h = tt

  keep_task-OfTasks :
      (kept : Option Task) (ts : List Task)
      → OfTasks P (keep_task kept [])
      → OfTasks P ts
      → OfTasks P (keep_task kept ts)
  keep_task-OfTasks none ts h k = k
  keep_task-OfTasks (some t) ts h k = (h.0, k)

  keep_tasks-OfTasks : (e : Event) (ts : List Task) → OfTasks P ts → OfTasks P (keep_tasks e ts)
  unfolding keep_tasks
  keep_tasks-OfTasks e [] h = tt
  keep_tasks-OfTasks e (t ∷ ts) h =
      keep_task-OfTasks (after e t) (keep_tasks e ts) (after-OfTasks e t h.0)
        (keep_tasks-OfTasks e ts h.1)

  deliver_all-OfPosts : (e : Event) (ts : List Task) → OfTasks P ts → OfPosts P (deliver_all e ts)
  unfolding deliver_all
  deliver_all-OfPosts e [] h = tt
  deliver_all-OfPosts e (t ∷ ts) h =
      All-append (λ p. P p.reply p.message) (delivered e t) (deliver_all e ts)
        (delivered-OfPosts e t h.0) (deliver_all-OfPosts e ts h.1)

OfTasks-map :
    (P Q : ℕ → InternalMessage → Type 0) (ts : List Task)
    → ((n : ℕ) (m : InternalMessage) → P n m → Q n m)
    → OfTasks P ts
    → OfTasks Q ts
OfTasks-map P Q [] f h = tt
OfTasks-map P Q (t ∷ ts) f h = (f t.reply t.message h.0, OfTasks-map P Q ts f h.1)

OfPosts-map :
    (P Q : ℕ → InternalMessage → Type 0) (ps : List Post)
    → ((n : ℕ) (m : InternalMessage) → P n m → Q n m)
    → OfPosts P ps
    → OfPosts Q ps
OfPosts-map P Q [] f h = tt
OfPosts-map P Q (p ∷ ps) f h = (f p.reply p.message h.0, OfPosts-map P Q ps f h.1)

-- The future's number is the place at which the message was accepted.
abbrev pub IsSource : List InternalMessage → ℕ → InternalMessage → Type 0
IsSource queue n m = get_elem? queue n ≡ some m

queued-IsSource :
    (e : Event) (queue : List InternalMessage) (n : ℕ) (m : InternalMessage)
    → IsSource queue n m
    → IsSource (queued e queue) n m
queued-IsSource (accept message) queue n m h = get_elem?-append queue (message ∷ []) n m h
queued-IsSource (set_result k text) queue n m h = h
queued-IsSource (set_exception k) queue n m h = h
queued-IsSource (time_out k) queue n m h = h
queued-IsSource (post_done k) queue n m h = h
queued-IsSource (post_failed k) queue n m h = h
queued-IsSource cancel_inflight queue n m h = h

new_tasks-OfTasks :
    (e : Event) (queue : List InternalMessage)
    → OfTasks (IsSource (queued e queue)) (new_tasks e queue)
new_tasks-OfTasks (accept message) queue = (get_elem?-length queue message, tt)
new_tasks-OfTasks (set_result k text) queue = tt
new_tasks-OfTasks (set_exception k) queue = tt
new_tasks-OfTasks (time_out k) queue = tt
new_tasks-OfTasks (post_done k) queue = tt
new_tasks-OfTasks (post_failed k) queue = tt
new_tasks-OfTasks cancel_inflight queue = tt

abbrev HasSources : ReplyDelivery → Type 0
HasSources s = OfTasks (IsSource s.queue) s.reply_tasks × OfPosts (IsSource s.queue) s.posted

step-HasSources : (s : ReplyDelivery) (e : Event) → HasSources s → HasSources (step s e)
unfolding step
step-HasSources s e (tasks, posts) =
    let P = IsSource s.queue in
    let Q = IsSource (queued e s.queue) in
    let grow = queued-IsSource e s.queue in
    (
      All-append (λ (t : Task). Q t.reply t.message) (keep_tasks e s.reply_tasks)
          (new_tasks e s.queue)
          (OfTasks-map P Q (keep_tasks e s.reply_tasks) grow
            (keep_tasks-OfTasks P e s.reply_tasks tasks))
          (new_tasks-OfTasks e s.queue),
      All-append (λ (p : Post). Q p.reply p.message) s.posted (deliver_all e s.reply_tasks)
          (OfPosts-map P Q s.posted grow posts)
          (OfPosts-map P Q (deliver_all e s.reply_tasks) grow
            (deliver_all-OfPosts P e s.reply_tasks tasks)),
    )

run-HasSources : (s : ReplyDelivery) (es : List Event) → HasSources s → HasSources (run s es)
unfolding run
run-HasSources s [] h = h
run-HasSources s (e ∷ es) h = run-HasSources (step s e) es (step-HasSources s e h)

-- However accepted messages, replies, failures, timeouts and shutdowns follow each other, every post
-- goes to a message that was accepted, with a text that was set as the result of this message's own
-- future; no accepted message gets a second post, and where its task is still held it has had none. A shutdown leaves no task behind.
pub run-IsDelivery :
    (es : List Event)
    → OfPosts (IsSource (run new_delivery es).queue) (run new_delivery es).posted
      × SaysTold (WasSet es) (run new_delivery es).posted
      × ((n : ℕ)
          → tasks_for n (run new_delivery es).reply_tasks + posts_for n (run new_delivery es).posted
            ≤ 1)
      × ((step (run new_delivery es) cancel_inflight).reply_tasks ≡ [])
unfolding step
run-IsDelivery es = (
  (run-HasSources new_delivery es (tt, tt)).1,
  run-WasSet new_delivery es refl refl,
  run_once es,
  ap (λ ts. ts ++ []) (keep_tasks_cancelled (run new_delivery es).reply_tasks),
)
