-- ===== src/Channel/Told.antt =====
-- Which text `ReplyDelivery` of channel_lifecycle.py posts: the one that the message's own future got.
use agent_keep.Base.{
  ℕ, String, Bool, true, false, ◌≡◌, inl, inr, refl, Option, none, some, List, [], ◌∷◌, ◌==◌,
  ==_iff, All, All-append, All-of_In, In, Bool-cases,
}
use agent_keep.Channel.Reply.{
  Phase, awaiting, posting, Task, Post, ReplyDelivery, Event, accept, set_result, set_exception,
  time_out, post_done, post_failed, cancel_inflight, ended, resolved, returned, after, post_of,
  delivered, keep_task, keep_tasks, deliver_all, new_tasks, step, run,
}

module _ (P : ℕ → String → Type 0) where
  -- A task that posts, posts what is true of its future.
  abbrev InPhase : ℕ → Phase → Type 0
  InPhase n awaiting = Unit
  InPhase n (posting text) = P n text

  abbrev pub IsTold : List Task → Type 0
  IsTold ts = All (λ t. InPhase t.reply t.phase) ts

  abbrev pub SaysTold : List Post → Type 0
  SaysTold ps = All (λ p. P p.reply p.text) ps

  -- A result that is set is true of its future.
  abbrev pub Justifies : Event → Type 0
  Justifies (set_result n text) = P n text
  Justifies (accept message) = Unit
  Justifies (set_exception n) = Unit
  Justifies (time_out n) = Unit
  Justifies (post_done n) = Unit
  Justifies (post_failed n) = Unit
  Justifies cancel_inflight = Unit

  resolved-IsTold :
      (n : ℕ) (text : String) (t : Task) (phase : Phase)
      → t.phase ≡ phase
      → P n text
      → InPhase t.reply t.phase
      → IsTold (keep_task (resolved (t.reply == n) text t phase) [])
  resolved-IsTold n text t (posting old) e p h = (h, tt)
  resolved-IsTold n text t awaiting e p h = elim (Bool-cases (t.reply == n)) [
    | inl y ↦ rw y (rw ((==_iff t.reply n).0 y) p, tt)
    | inr f ↦ rw f (h, tt)
  ]

  ended-IsTold :
      (here : Bool) (t : Task) (phase : Phase)
      → InPhase t.reply t.phase
      → IsTold (keep_task (ended here t phase) [])
  ended-IsTold here t (posting old) h = (h, tt)
  ended-IsTold true t awaiting h = tt
  ended-IsTold false t awaiting h = (h, tt)

  returned-IsTold :
      (here : Bool) (t : Task) (phase : Phase)
      → InPhase t.reply t.phase
      → IsTold (keep_task (returned here t phase) [])
  returned-IsTold here t awaiting h = (h, tt)
  returned-IsTold true t (posting text) h = tt
  returned-IsTold false t (posting text) h = (h, tt)

  after-IsTold :
      (e : Event) (t : Task)
      → Justifies e
      → InPhase t.reply t.phase
      → IsTold (keep_task (after e t) [])
  unfolding after
  after-IsTold (accept message) t j h = (h, tt)
  after-IsTold cancel_inflight t j h = tt
  after-IsTold (set_result n text) t j h = resolved-IsTold n text t t.phase refl j h
  after-IsTold (set_exception n) t j h = ended-IsTold (t.reply == n) t t.phase h
  after-IsTold (time_out n) t j h = ended-IsTold (t.reply == n) t t.phase h
  after-IsTold (post_done n) t j h = returned-IsTold (t.reply == n) t t.phase h
  after-IsTold (post_failed n) t j h = returned-IsTold (t.reply == n) t t.phase h

  keep_task-IsTold :
      (kept : Option Task) (ts : List Task)
      → IsTold (keep_task kept [])
      → IsTold ts
      → IsTold (keep_task kept ts)
  keep_task-IsTold none ts h k = k
  keep_task-IsTold (some t) ts h k = (h.0, k)

  keep_tasks-IsTold :
      (e : Event) (ts : List Task) → Justifies e → IsTold ts → IsTold (keep_tasks e ts)
  unfolding keep_tasks
  keep_tasks-IsTold e [] j h = tt
  keep_tasks-IsTold e (t ∷ ts) j h =
      keep_task-IsTold (after e t) (keep_tasks e ts) (after-IsTold e t j h.0)
        (keep_tasks-IsTold e ts j h.1)

  post_of-SaysTold :
      (here : Bool) (t : Task) (phase : Phase)
      → InPhase t.reply phase
      → SaysTold (post_of here t phase)
  post_of-SaysTold here t awaiting h = tt
  post_of-SaysTold true t (posting text) h = (h, tt)
  post_of-SaysTold false t (posting text) h = tt

  delivered-SaysTold : (e : Event) (t : Task) → InPhase t.reply t.phase → SaysTold (delivered e t)
  unfolding delivered
  delivered-SaysTold (post_done n) t h = post_of-SaysTold (t.reply == n) t t.phase h
  delivered-SaysTold (accept message) t h = tt
  delivered-SaysTold cancel_inflight t h = tt
  delivered-SaysTold (set_result n text) t h = tt
  delivered-SaysTold (set_exception n) t h = tt
  delivered-SaysTold (time_out n) t h = tt
  delivered-SaysTold (post_failed n) t h = tt

  deliver_all-SaysTold : (e : Event) (ts : List Task) → IsTold ts → SaysTold (deliver_all e ts)
  unfolding deliver_all
  deliver_all-SaysTold e [] h = tt
  deliver_all-SaysTold e (t ∷ ts) h =
      All-append (λ p. P p.reply p.text) (delivered e t) (deliver_all e ts)
        (delivered-SaysTold e t h.0) (deliver_all-SaysTold e ts h.1)

  new_tasks-IsTold : (e : Event) (s : ReplyDelivery) → IsTold (new_tasks e s.queue)
  new_tasks-IsTold (accept message) s = (tt, tt)
  new_tasks-IsTold (set_result n text) s = tt
  new_tasks-IsTold (set_exception n) s = tt
  new_tasks-IsTold (time_out n) s = tt
  new_tasks-IsTold (post_done n) s = tt
  new_tasks-IsTold (post_failed n) s = tt
  new_tasks-IsTold cancel_inflight s = tt

  run-SaysTold :
      (s : ReplyDelivery) (es : List Event)
      → All Justifies es
      → IsTold s.reply_tasks
      → SaysTold s.posted
      → SaysTold (run s es).posted
  unfolding run step
  run-SaysTold s [] j h k = k
  run-SaysTold s (e ∷ es) j h k =
      run-SaysTold (step s e) es j.1
        (All-append (λ t. InPhase t.reply t.phase) (keep_tasks e s.reply_tasks)
          (new_tasks e s.queue) (keep_tasks-IsTold e s.reply_tasks j.0 h) (new_tasks-IsTold e s))
        (All-append (λ p. P p.reply p.text) s.posted (deliver_all e s.reply_tasks) k
          (deliver_all-SaysTold e s.reply_tasks h))

-- Some event sets that text as the result of that future.
abbrev pub WasSet : List Event → ℕ → String → Type 0
WasSet es n text = In (set_result n text) es

sets : (es : List Event) (e : Event) → In e es → Justifies (WasSet es) e
sets es (set_result n text) i = i
sets es (accept message) i = tt
sets es (set_exception n) i = tt
sets es (time_out n) i = tt
sets es (post_done n) i = tt
sets es (post_failed n) i = tt
sets es cancel_inflight i = tt

pub run-WasSet :
    (s : ReplyDelivery) (es : List Event)
    → s.reply_tasks ≡ []
    → s.posted ≡ []
    → SaysTold (WasSet es) (run s es).posted
run-WasSet s es t p =
    run-SaysTold (WasSet es) s es (All-of_In (Justifies (WasSet es)) es (sets es)) (rw t tt)
      (rw p tt)
