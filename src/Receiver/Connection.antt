-- ===== src/Receiver/Connection.antt =====
-- `_serve`, `_run_handler` and `_handle_connection` of http_receiver.py. The injected handler, and
-- whether the client goes away while it runs, are parameters. A run is a list of events: connections
-- that arrive, and connections whose peer has sent what it sends.
use agent_keep.Base.{
  ℕ, suc, ◌-◌, String, Bool, false, ◌||◌, Option, none, some, List, [], ◌∷◌, ◌++◌, Result, ok, err,
  ltb, leb, ◌==◌, if◌then◌else◌,
}
use agent_keep.Receiver.Request.{
  ReceiverLimits, StreamReader, Failure, http_error, disconnected, timeout, connection_error,
  out_of_fuel, Request, parse,
}

pub data ResponseBody (B : Type 0) : Type 0 where
  error_body : String → ResponseBody B
  handler_body : B → ResponseBody B

-- What the handler came to, raced against the client's disconnect.
pub data Race (B : Type 0) : Type 0 where
  answered : ℕ → B → Race B
  client_gone handler_raised : Race B

abbrev pub Response : Type 0 → Type 0
Response B = ℕ × ResponseBody B

module _ {R W B : Type 0} (reader : StreamReader R) (limits : ReceiverLimits)
    (handler : Request → W → W × Race B) where
  -- The response to a handled request; `none` closes the connection without one.
  abbrev pub of_race : W × Race B → W × Option (Response B)
  of_race (w, answered status b) = (w, some (status, handler_body b))
  of_race (w, client_gone) = (w, none)
  of_race (w, handler_raised) = (w, some (500, error_body "internal error"))

  abbrev pub of_parse : W → Result Failure Request → W × Option (Response B)
  of_parse w (ok request) = of_race (handler request w)
  of_parse w (err (http_error status message)) = (w, some (status, error_body message))
  of_parse w (err disconnected) = (w, none)
  of_parse w (err timeout) = (w, some (408, error_body "request timeout"))
  of_parse w (err connection_error) = (w, some (500, error_body "internal error"))
  of_parse w (err out_of_fuel) = (w, none)

  unfoldable pub serve : W → R → W × Option (Response B)
  serve w r = of_parse w (parse reader limits r).1

pub record Receiver (W B : Type 0) : Type 0 where
  pub active : ℕ
  pub max_active : ℕ
  pub in_flight : List ℕ
  pub world : W
  pub written : List (ℕ × Response B)

abbrev pub fresh_receiver : {W B : Type 0} → W → Receiver W B
fresh_receiver w = record { active = 0; max_active = 0; in_flight = []; world = w; written = [] }

pub data Event (R : Type 0) : Type 0 where
  arrive : ℕ → Event R
  finish : ℕ → R → Event R

unfoldable pub is_open : List ℕ → ℕ → Bool
is_open [] c = false
is_open (d ∷ ds) c = d == c || is_open ds c

unfoldable pub without : List ℕ → ℕ → List ℕ
without [] c = []
without (d ∷ ds) c = if d == c then ds else d ∷ without ds c

abbrev pub write_response :
    {B : Type 0} → List (ℕ × Response B) → ℕ → Option (Response B) → List (ℕ × Response B)
write_response written c none = written
write_response written c (some response) = written ++ (c, response) ∷ []

abbrev pub larger : ℕ → ℕ → ℕ
larger m n = if ltb m n then n else m

module _ {R W B : Type 0} (reader : StreamReader R) (limits : ReceiverLimits)
    (handler : Request → W → W × Race B) where
  -- The accept gate: the ceiling is checked and the count raised without an await between.
  abbrev pub accept : Receiver W B → ℕ → Receiver W B
  accept s c =
      if leb limits.max_concurrent_connections s.active
      then record s { written = write_response s.written c (some (503, error_body "server busy")) }
      else record s {
        active = suc s.active;
        max_active = larger s.max_active (suc s.active);
        in_flight = c ∷ s.in_flight;
      }

  -- The rest of an accepted connection, whose count is given back whatever happened.
  abbrev pub complete : Receiver W B → ℕ → W × Option (Response B) → Receiver W B
  complete s c (w, response) = record {
    active = s.active - 1;
    max_active = s.max_active;
    in_flight = without s.in_flight c;
    world = w;
    written = write_response s.written c response;
  }

  unfoldable pub step : Receiver W B → Event R → Receiver W B
  step s (arrive c) = accept s c
  step s (finish c r) =
      if is_open s.in_flight c then complete s c (serve reader limits handler s.world r) else s

  unfoldable pub run : Receiver W B → List (Event R) → Receiver W B
  run s [] = s
  run s (e ∷ es) = run (step s e) es
