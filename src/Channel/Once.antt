-- ===== src/Channel/Once.antt =====
-- How often `ReplyDelivery` of channel_lifecycle.py posts a reply.
use agent_keep.Base.{
  ℕ, ◌+◌, ◌≤◌, String, Bool, true, false, ◌≡◌, refl, Option, none, some, List, [], ◌∷◌, ◌++◌,
  length, length-append, arith, ltb, ◌==◌,
}
use agent_keep.Messages.{InternalMessage}
use agent_keep.Channel.Reply.{
  Phase, awaiting, posting, Task, Post, ReplyDelivery, new_delivery, Event, accept, set_result,
  set_exception, time_out, post_done, post_failed, cancel_inflight, ended, resolved, returned,
  after, post_of, delivered, keep_task, keep_tasks, deliver_all, queued, new_tasks, step, run,
}

abbrev pub one_if : Bool → ℕ
one_if true = 1
one_if false = 0

-- How many tasks, and how many posts, are for a future.
unfoldable pub tasks_for : ℕ → List Task → ℕ
tasks_for n [] = 0
tasks_for n (t ∷ ts) = one_if (t.reply == n) + tasks_for n ts

unfoldable pub posts_for : ℕ → List Post → ℕ
posts_for n [] = 0
posts_for n (p ∷ ps) = one_if (p.reply == n) + posts_for n ps

tasks_for-append :
    (n : ℕ) (xs ys : List Task) → tasks_for n (xs ++ ys) ≡ tasks_for n xs + tasks_for n ys
unfolding tasks_for
tasks_for-append n [] ys = omega arith
tasks_for-append n (x ∷ xs) ys = omega (arith, tasks_for-append n xs ys)

posts_for-append :
    (n : ℕ) (xs ys : List Post) → posts_for n (xs ++ ys) ≡ posts_for n xs + posts_for n ys
unfolding posts_for
posts_for-append n [] ys = omega arith
posts_for-append n (x ∷ xs) ys = omega (arith, posts_for-append n xs ys)

-- One task, for a future: kept or posted, and never both.
abbrev IsSplit : Task → Option Task → List Post → Type 0
IsSplit t kept posts =
    (n : ℕ) → tasks_for n (keep_task kept []) + posts_for n posts ≤ one_if (t.reply == n)

resolved-IsSplit :
    (here : Bool) (text : String) (t : Task) (phase : Phase)
    → IsSplit t (resolved here text t phase) []
unfolding tasks_for posts_for
resolved-IsSplit here text t (posting old) n = omega arith
resolved-IsSplit true text t awaiting n = omega arith
resolved-IsSplit false text t awaiting n = omega arith

ended-IsSplit : (here : Bool) (t : Task) (phase : Phase) → IsSplit t (ended here t phase) []
unfolding tasks_for posts_for
ended-IsSplit here t (posting old) n = omega arith
ended-IsSplit true t awaiting n = omega arith
ended-IsSplit false t awaiting n = omega arith

returned-IsSplit : (here : Bool) (t : Task) (phase : Phase) → IsSplit t (returned here t phase) []
unfolding tasks_for posts_for
returned-IsSplit here t awaiting n = omega arith
returned-IsSplit true t (posting text) n = omega arith
returned-IsSplit false t (posting text) n = omega arith

posted-IsSplit :
    (here : Bool) (t : Task) (phase : Phase)
    → IsSplit t (returned here t phase) (post_of here t phase)
unfolding tasks_for posts_for
posted-IsSplit here t awaiting n = omega arith
posted-IsSplit true t (posting text) n = omega arith
posted-IsSplit false t (posting text) n = omega arith

after-IsSplit : (e : Event) (t : Task) → IsSplit t (after e t) (delivered e t)
unfolding after delivered tasks_for posts_for
after-IsSplit (accept message) t n = omega arith
after-IsSplit cancel_inflight t n = omega arith
after-IsSplit (set_result k text) t n = resolved-IsSplit (t.reply == k) text t t.phase n
after-IsSplit (set_exception k) t n = ended-IsSplit (t.reply == k) t t.phase n
after-IsSplit (time_out k) t n = ended-IsSplit (t.reply == k) t t.phase n
after-IsSplit (post_done k) t n = posted-IsSplit (t.reply == k) t t.phase n
after-IsSplit (post_failed k) t n = returned-IsSplit (t.reply == k) t t.phase n

tasks_for-keep_task :
    (n : ℕ) (kept : Option Task) (ts : List Task)
    → tasks_for n (keep_task kept ts) ≡ tasks_for n (keep_task kept []) + tasks_for n ts
unfolding tasks_for
tasks_for-keep_task n none ts = omega arith
tasks_for-keep_task n (some t) ts = omega arith

tasks-IsSplit :
    (e : Event) (ts : List Task) (n : ℕ)
    → tasks_for n (keep_tasks e ts) + posts_for n (deliver_all e ts) ≤ tasks_for n ts
unfolding keep_tasks deliver_all tasks_for posts_for
tasks-IsSplit e [] n = omega arith
tasks-IsSplit e (t ∷ ts) n = omega (
  arith,
  tasks-IsSplit e ts n,
  after-IsSplit e t n,
  tasks_for-keep_task n (after e t) (keep_tasks e ts),
  posts_for-append n (delivered e t) (deliver_all e ts),
)

-- A future that was made, at most once; a later one, never.
abbrev pub allowance : ℕ → ReplyDelivery → ℕ
allowance n s = one_if (ltb n (length s.queue))

-- For every accepted message there is one task or one post at most.
abbrev pub IsOnce : ReplyDelivery → Type 0
IsOnce s = (n : ℕ) → tasks_for n s.reply_tasks + posts_for n s.posted ≤ allowance n s

new-allowance :
    (e : Event) (queue : List InternalMessage) (n : ℕ)
    → one_if (ltb n (length queue)) + tasks_for n (new_tasks e queue)
      ≤ one_if (ltb n (length (queued e queue)))
unfolding tasks_for
new-allowance (accept message) queue n = ground (arith, length-append queue (message ∷ []))
new-allowance (set_result k text) queue n = omega arith
new-allowance (set_exception k) queue n = omega arith
new-allowance (time_out k) queue n = omega arith
new-allowance (post_done k) queue n = omega arith
new-allowance (post_failed k) queue n = omega arith
new-allowance cancel_inflight queue n = omega arith

step-IsOnce : (s : ReplyDelivery) (e : Event) → IsOnce s → IsOnce (step s e)
unfolding step
step-IsOnce s e h n = omega (
  arith,
  h n,
  tasks-IsSplit e s.reply_tasks n,
  new-allowance e s.queue n,
  tasks_for-append n (keep_tasks e s.reply_tasks) (new_tasks e s.queue),
  posts_for-append n s.posted (deliver_all e s.reply_tasks),
)

pub run-IsOnce : (s : ReplyDelivery) (es : List Event) → IsOnce s → IsOnce (run s es)
unfolding run
run-IsOnce s [] h = h
run-IsOnce s (e ∷ es) h = run-IsOnce (step s e) es (step-IsOnce s e h)

one_if_bound : (b : Bool) → one_if b ≤ 1
one_if_bound b = ground arith

-- From a fresh delivery on, a future has one task or one post at most.
pub run_once :
    (es : List Event) (n : ℕ)
    → tasks_for n (run new_delivery es).reply_tasks + posts_for n (run new_delivery es).posted ≤ 1
unfolding tasks_for posts_for
run_once es n = omega (
  arith,
  run-IsOnce new_delivery es (λ k. omega arith) n,
  one_if_bound (ltb n (length (run new_delivery es).queue)),
)

-- The shutdown leaves no task.
pub keep_tasks_cancelled : (ts : List Task) → keep_tasks cancel_inflight ts ≡ []
unfolding keep_tasks after
keep_tasks_cancelled [] = refl
keep_tasks_cancelled (t ∷ ts) = keep_tasks_cancelled ts
