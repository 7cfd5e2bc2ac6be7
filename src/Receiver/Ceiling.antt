-- ===== src/Receiver/Ceiling.antt =====
-- How many connections http_receiver.py serves at once, and what reaches its handler.
use agent_keep.Base.{
  ℕ, suc, ◌≤◌, true, ◌||◌, ◌≡◌, refl, ap, ◌⊎◌, inl, inr, Option, none, some, List, [], ◌∷◌, Result,
  ok, err, arith, length, leb, ◌==◌, if_elim, Bool-cases,
}
use agent_keep.Receiver.Request.{
  ReceiverLimits, StreamReader, Failure, http_error, disconnected, timeout, connection_error,
  out_of_fuel, Request, parse,
}
use agent_keep.Receiver.Bounds.{is_rejection, IsHandled, IsExact, IsBounded, parse-IsHandled}
use agent_keep.Receiver.Connection.{
  error_body, Race, Response, of_race, of_parse, serve, Receiver, fresh_receiver, Event, arrive,
  finish, is_open, without, step, run,
}

length-without :
    (ds : List ℕ) (c : ℕ) → is_open ds c ≡ true → suc (length (without ds c)) ≡ length ds
unfolding is_open without
length-without [] c e = cc
length-without (d ∷ ds) c e = elim (Bool-cases (d == c)) [
  | inl here ↦ rw here refl
  | inr later ↦ rw later (ap suc (length-without ds c (rw later at e)))
]

module _ {R W B : Type 0} (reader : StreamReader R) (limits : ReceiverLimits)
    (handler : Request → W → W × Race B) where
  -- The count is that of the connections in flight, and stays within the ceiling.
  abbrev pub IsWithin : Receiver W B → Type 0
  IsWithin s =
      (s.active ≡ length s.in_flight)
      × (s.active ≤ limits.max_concurrent_connections)
      × (s.max_active ≤ limits.max_concurrent_connections)

  step-IsWithin :
      (s : Receiver W B) (e : Event R) → IsWithin s → IsWithin (step reader limits handler s e)
  unfolding step
  step-IsWithin s (arrive c) (count, below, peak) =
      if_elim IsWithin (leb limits.max_concurrent_connections s.active) _ _
        (λ _. (count, below, peak)) (λ free. (ap suc count, ground arith, ground arith))
  step-IsWithin s (finish c r) (count, below, peak) =
      if_elim IsWithin (is_open s.in_flight c) _ _
        (λ served. (omega (arith, count, length-without s.in_flight c served), omega arith, peak))
        (λ _. (count, below, peak))

  run-IsWithin :
      (s : Receiver W B) (es : List (Event R))
      → IsWithin s
      → IsWithin (run reader limits handler s es)
  unfolding run
  run-IsWithin s [] h = h
  run-IsWithin s (e ∷ es) h = run-IsWithin (step reader limits handler s e) es (step-IsWithin s e h)

  -- However connections arrive and end, and whatever their peers send, the receiver's count is that of
  -- the connections in flight, and neither it nor its peak is ever above the ceiling.
  pub fresh-IsWithin :
      (w : W) (es : List (Event R)) → IsWithin (run reader limits handler (fresh_receiver w) es)
  fresh-IsWithin w es = run-IsWithin (fresh_receiver w) es (refl, omega arith, omega arith)

  -- The receiver's own answer, if it gives one.
  abbrev IsRejected : Option (Response B) → Type 0
  IsRejected none = Unit
  IsRejected (some (status, text)) = (is_rejection status || status == 408) ≡ true

  -- The handler ran once on the request that was parsed, within the limits; or nothing happened
  -- downstream.
  abbrev pub IsGuarded : W → Result Failure Request → W × Option (Response B) → Type 0
  IsGuarded w p (after, response) =
      ((request : Request) × (p ≡ ok request)
        × IsBounded limits request
        × ((after, response) ≡ of_race reader limits handler (handler request w)))
      ⊎ ((after ≡ w)
          × (IsRejected response
              ⊎ ((p ≡ err connection_error)
                  × (response ≡ some (500, error_body "internal error")))))

  of_parse-IsGuarded :
      (w : W) (p : Result Failure Request)
      → IsHandled (IsBounded limits) p
      → IsGuarded w p (of_parse reader limits handler w p)
  of_parse-IsGuarded w (ok request) h = inl (request, refl, h, refl)
  of_parse-IsGuarded w (err (http_error status message)) h = inr (refl, inl (rw h refl))
  of_parse-IsGuarded w (err disconnected) h = inr (refl, inl tt)
  of_parse-IsGuarded w (err timeout) h = inr (refl, inl refl)
  of_parse-IsGuarded w (err connection_error) h = inr (refl, inr (refl, refl))
  of_parse-IsGuarded w (err out_of_fuel) h = absurd h

  -- A connection runs the handler once, on the request that was parsed, which keeps the limits, and the
  -- answer is the handler's; or it changes nothing downstream, and its peer gets a 400, 408, 413, 414 or
  -- 431, or no answer, or, where a read raised on a connection that was reset, a 500.
  pub serve-IsGuarded :
      (w : W) (r : R)
      → IsExact reader
      → IsGuarded w (parse reader limits r).1 (serve reader limits handler w r)
  unfolding serve
  serve-IsGuarded w r exact =
      of_parse-IsGuarded w (parse reader limits r).1 (parse-IsHandled reader limits exact r)
