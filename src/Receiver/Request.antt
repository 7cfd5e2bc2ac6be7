-- ===== src/Receiver/Request.antt =====
-- `_parse` and `_read_line` of http_receiver.py. The stream reader is asyncio's: its calls are
-- parameters, and a read that the deadline of the read or of the whole parse cuts off has timed out.
use agent_keep.Base.{
  ℕ, ℤ, pos, negsuc, zero, suc, ◌+◌, ◌*◌, ◌-◌, String, Bool, true, false, not, ◌&&◌, ◌||◌, Option,
  none, some, List, [], ◌∷◌, map, Result, ok, err, length, is_empty, ltb, leb, ◌==◌, if◌then◌else◌,
}
use agent_keep.Egress.Text.{Text, same_text, lower, ends_with, is_digit}
use agent_keep.Words.{split_on, partition_on, strip, strip_left, strip_right}

pub record ReceiverLimits : Type 0 where
  pub max_request_line_bytes : ℕ
  pub max_header_line_bytes : ℕ
  pub max_header_count : ℕ
  pub max_total_header_bytes : ℕ
  pub max_body_bytes : ℕ
  pub max_concurrent_connections : ℕ

abbrev pub default_limits : ReceiverLimits
default_limits = record {
  max_request_line_bytes = 8192;
  max_header_line_bytes = 8192;
  max_header_count = 100;
  max_total_header_bytes = 65536;
  max_body_bytes = 1000000;
  max_concurrent_connections = 128;
}

-- What `readline` and `readexactly` of the reader come to.
pub data LineRead : Type 0 where
  line : Text → LineRead
  over_buffer late_line reset_line : LineRead

pub data BodyRead : Type 0 where
  body : Text → BodyRead
  incomplete late_body reset_body : BodyRead

pub record StreamReader (R : Type 0) : Type 0 where
  pub readline : R → R × LineRead
  pub readexactly : ℕ → R → R × BodyRead

-- What ends a parse early: `_HttpError`, `_Disconnected`, `TimeoutError`, and the `ConnectionError`
-- that a read raises where the peer resets the connection. The last says that the
-- loop's fuel ran out, which the program cannot do.
pub data Failure : Type 0 where
  http_error : ℕ → String → Failure
  disconnected timeout connection_error out_of_fuel : Failure

abbrev pub Headers : Type 0
Headers = List (Text × Text)

pub record Request : Type 0 where
  pub method : Text
  pub path : Text
  pub headers : Headers
  pub raw_body : Text

-- `headers[name] = value`
unfoldable pub set_header : Headers → Text → Text → Headers
set_header [] name value = (name, value) ∷ []
set_header ((n, v) ∷ headers) name value =
    if same_text n name then (n, value) ∷ headers else (n, v) ∷ set_header headers name value

-- `headers.get(name, default)`
unfoldable pub header_or : Headers → Text → Text → Text
header_or [] name default = default
header_or ((n, v) ∷ headers) name default =
    if same_text n name then v else header_or headers name default

-- `raw.decode("ascii", errors="replace")`
abbrev pub decode : Text → Text
decode raw = map (λ b. if ltb b 128 then b else 0xFFFD) raw

abbrev pub newline : Text
newline = 0x0A ∷ []

-- A line that was read, against the bound on it.
unfoldable pub checked_line : ℕ → ℕ → LineRead → Result Failure Text
unfolding ends_with
checked_line max_bytes status over_buffer = err (http_error status "line too long")
checked_line max_bytes status late_line = err timeout
checked_line max_bytes status reset_line = err connection_error
checked_line max_bytes status (line raw) =
    if ltb max_bytes (length raw)
    then err (http_error status "line too long")
    else if not (is_empty raw) && not (ends_with raw newline)
    then err disconnected
    else ok (decode raw)

-- `line in ("\r\n", "\n", "")`
abbrev pub is_blank : Text → Bool
is_blank l = same_text l (0x0D ∷ 0x0A ∷ []) || same_text l newline || is_empty l

abbrev pub add_header : Headers → Text × Bool × Text → Headers
add_header headers (name, found, value) = set_header headers (lower (strip name)) (strip value)

-- `int(text)` of the digits: an underscore may stand between two of them, and more than 4300 of them
-- are refused.
unfoldable pub int_digits : Bool → ℕ → ℕ → Text → Option ℕ
int_digits after_digit count n [] = if after_digit && leb count 4300 then some n else none
int_digits after_digit count n (c ∷ s) =
    let next = int_digits true (suc count) (n * 10 + (c - b'0')) s in
    let skipped = int_digits false count n s in
    if is_digit c then next else if c == b'_' && after_digit then skipped else none

abbrev pub negated : Option ℕ → Option ℤ
negated none = none
negated (some zero) = some (pos zero)
negated (some (suc n)) = some (negsuc n)

abbrev pub as_pos : Option ℕ → Option ℤ
as_pos none = none
as_pos (some n) = some (pos n)

-- `int(text)`, `none` where it raises, of a text without white space around it.
unfoldable pub int_of_text : Text → Option ℤ
unfolding int_digits
int_of_text [] = none
int_of_text (c ∷ s) =
    if c == b'-'
    then negated (int_digits false 0 0 s)
    else if c == b'+'
    then as_pos (int_digits false 0 0 s)
    else as_pos (int_digits false 0 0 (c ∷ s))

-- The length of the body that the headers announce.
abbrev pub body_length : ReceiverLimits → Option ℤ → Result Failure ℕ
body_length limits (some (pos n)) =
    if ltb limits.max_body_bytes n then err (http_error 413 "payload too large") else ok n
body_length limits _ = err (http_error 400 "malformed content-length")

abbrev pub content_length_name : Text
content_length_name =
    b'c' ∷ b'o' ∷ b'n' ∷ b't' ∷ b'e' ∷ b'n' ∷ b't' ∷ b'-' ∷ b'l' ∷ b'e' ∷ b'n' ∷ b'g' ∷ b't' ∷ b'h'
    ∷ []

unfoldable pub content_length : ReceiverLimits → Headers → Result Failure ℕ
unfolding int_of_text header_or
content_length limits headers =
    body_length limits (int_of_text (header_or headers content_length_name (b'0' ∷ [])))

abbrev pub three_parts : List Text → Result Failure (Text × Text)
three_parts (method ∷ path ∷ version ∷ []) = ok (method, path)
three_parts _ = err (http_error 400 "malformed request line")

unfoldable pub parse_request_line : Text → Result Failure (Text × Text)
unfolding split_on strip_left strip_right
parse_request_line l =
    if is_empty (strip l)
    then err (http_error 400 "empty request")
    else three_parts (split_on 0x20 [] (strip l))

unfoldable pub and_then :
    {R A B : Type 0} → R × Result Failure A → (A → R → R × Result Failure B) → R × Result Failure B
and_then (r, err e) next = (r, err e)
and_then (r, ok x) next = next x r

module _ {R : Type 0} (reader : StreamReader R) (limits : ReceiverLimits) where
  -- `_read_line`
  unfoldable pub read_line : ℕ → ℕ → R → R × Result Failure Text
  unfolding checked_line
  read_line max_bytes status r =
      let (s, raw) = reader.readline r in (s, checked_line max_bytes status raw)

  -- A header line: the end of the headers, an error, or one header more.
  unfoldable pub take_header :
      ℕ
      → ℕ
      → Headers
      → Text
      → R
      → (ℕ → ℕ → Headers → R → R × Result Failure Headers)
      → R × Result Failure Headers
  unfolding set_header partition_on lower same_text strip_left strip_right
  take_header count total headers l r next =
      if is_blank l
      then (r, ok headers)
      else if ltb limits.max_header_count (suc count)
      then (r, err (http_error 431 "too many headers"))
      else if ltb limits.max_total_header_bytes (total + length l)
      then (r, err (http_error 431 "header block too large"))
      else next (suc count) (total + length l) (add_header headers (partition_on b':' [] l)) r

  -- The loop over the header lines, from the count and the total so far.
  unfoldable pub read_headers : ℕ → ℕ → ℕ → Headers → R → R × Result Failure Headers
  read_headers zero count total headers r = (r, err out_of_fuel)
  read_headers (suc fuel) count total headers r =
      and_then (read_line limits.max_header_line_bytes 431 r)
        (λ l s. take_header count total headers l s (λ c t h u. read_headers fuel c t h u))

  abbrev pub on_body : R × BodyRead → R × Result Failure Text
  on_body (r, body b) = (r, ok b)
  on_body (r, incomplete) = (r, err disconnected)
  on_body (r, late_body) = (r, err timeout)
  on_body (r, reset_body) = (r, err connection_error)

  unfoldable pub read_body : ℕ → R → R × Result Failure Text
  read_body zero r = (r, ok [])
  read_body (suc n) r = on_body (reader.readexactly (suc n) r)

  -- What follows the request line.
  unfoldable pub parse_rest : Text × Text → R → R × Result Failure Request
  parse_rest (method, path) r =
      and_then (read_headers (suc limits.max_header_count) 0 0 [] r) (λ headers r.
        and_then (r, content_length limits headers)
          (λ n r. and_then (read_body n r) (λ raw_body r. (
            r,
            ok (record { method = method; path = path; headers = headers; raw_body = raw_body }),
          ))))

  unfoldable pub parse : R → R × Result Failure Request
  parse r =
      and_then (read_line limits.max_request_line_bytes 414 r)
        (λ l r. and_then (r, parse_request_line l) parse_rest)
