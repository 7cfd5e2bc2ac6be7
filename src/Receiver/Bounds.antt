-- ===== src/Receiver/Bounds.antt =====
-- What `_parse` of http_receiver.py gives, whatever the peer sends.
use agent_keep.Base.{
  ℕ, ℤ, pos, negsuc, zero, suc, ◌+◌, ◌≤◌, Bool, true, not, ◌&&◌, ◌≡◌, refl, ap, Option, none, some,
  List, [], ◌∷◌, Result, ok, err, arith, length, is_empty, ltb, ◌==◌, ◌||◌, if_elim,
}
use agent_keep.Egress.Text.{Text, ends_with}
use agent_keep.Words.{split_on, partition_on, strip}
use agent_keep.Receiver.Lengths.{
  Fits, header_bytes, total_length, total_length-split_on, length-strip, add_header-Fits,
}
use agent_keep.Receiver.Request.{
  ReceiverLimits, StreamReader, LineRead, line, over_buffer, late_line, reset_line, BodyRead, body,
  incomplete, late_body, reset_body, Failure, http_error, disconnected, timeout, connection_error,
  out_of_fuel, Headers, Request, decode, newline, checked_line, is_blank, add_header, body_length,
  content_length, three_parts, parse_request_line, and_then, read_line, take_header, read_headers,
  on_body, read_body, parse_rest, parse,
}

-- The statuses of a rejection.
abbrev pub is_rejection : ℕ → Bool
is_rejection status = status == 400 || status == 413 || status == 414 || status == 431

-- A result that is this, or one of the receiver's own answers to a bad peer.
abbrev pub IsHandled : {A : Type 0} → (A → Type 0) → Result Failure A → Type 0
IsHandled P (ok x) = P x
IsHandled P (err (http_error status message)) = is_rejection status ≡ true
IsHandled P (err disconnected) = Unit
IsHandled P (err timeout) = Unit
IsHandled P (err connection_error) = Unit
IsHandled P (err out_of_fuel) = ⊥

and_then-IsHandled :
    {R A B : Type 0} (Q : A → Type 0) (P : B → Type 0) (p : R × Result Failure A)
    (next : A → R → R × Result Failure B)
    → IsHandled Q p.1
    → ((x : A) (r : R) → Q x → IsHandled P (next x r).1)
    → IsHandled P (and_then p next).1
unfolding and_then
and_then-IsHandled Q P (r, ok x) next h k = k x r h
and_then-IsHandled Q P (r, err (http_error status message)) next h k = h
and_then-IsHandled Q P (r, err disconnected) next h k = tt
and_then-IsHandled Q P (r, err timeout) next h k = tt
and_then-IsHandled Q P (r, err connection_error) next h k = tt
and_then-IsHandled Q P (r, err out_of_fuel) next h k = h

length-decode : (raw : Text) → length (decode raw) ≡ length raw
length-decode [] = refl
length-decode (b ∷ raw) = ap suc (length-decode raw)

checked_line-IsHandled :
    (max_bytes status : ℕ) (raw : LineRead)
    → is_rejection status ≡ true
    → IsHandled (λ l. length l ≤ max_bytes) (checked_line max_bytes status raw)
unfolding checked_line
checked_line-IsHandled max_bytes status over_buffer h = h
checked_line-IsHandled max_bytes status late_line h = tt
checked_line-IsHandled max_bytes status reset_line h = tt
checked_line-IsHandled max_bytes status (line raw) h =
    if_elim (IsHandled (λ l. length l ≤ max_bytes)) (ltb max_bytes (length raw)) _ _ (λ _. h)
      (λ small.
        if_elim (IsHandled (λ l. length l ≤ max_bytes))
          (not (is_empty raw) && not (ends_with raw newline)) _ _ (λ _. tt)
          (λ _. ground (arith, length-decode raw)))

-- The method and the path are no longer than this together.
abbrev StartsWithin : ℕ → Text × Text → Type 0
StartsWithin most (method, path) = length method + length path ≤ most

three_parts-IsHandled :
    (parts : List Text) (most : ℕ)
    → total_length parts ≤ most
    → IsHandled (StartsWithin most) (three_parts parts)
unfolding total_length
three_parts-IsHandled [] most h = refl
three_parts-IsHandled (a ∷ []) most h = refl
three_parts-IsHandled (a ∷ b ∷ []) most h = refl
three_parts-IsHandled (a ∷ b ∷ c ∷ []) most h = omega (arith, h)
three_parts-IsHandled (a ∷ b ∷ c ∷ d ∷ rest) most h = refl

parse_request_line-IsHandled :
    (l : Text) (most : ℕ) → length l ≤ most → IsHandled (StartsWithin most) (parse_request_line l)
unfolding parse_request_line
parse_request_line-IsHandled l most h =
    if_elim (IsHandled (StartsWithin most)) (is_empty (strip l)) _ _ (λ _. refl)
      (λ _.
        three_parts-IsHandled (split_on 0x20 [] (strip l)) most
          (omega (arith, h, length-strip l, total_length-split_on 0x20 [] (strip l))))

body_length-IsHandled :
    (limits : ReceiverLimits) (n : Option ℤ)
    → IsHandled (λ k. k ≤ limits.max_body_bytes) (body_length limits n)
body_length-IsHandled limits none = refl
body_length-IsHandled limits (some (negsuc n)) = refl
body_length-IsHandled limits (some (pos n)) =
    if_elim (IsHandled (λ k. k ≤ limits.max_body_bytes)) (ltb limits.max_body_bytes n) _ _
      (λ _. refl) (λ e. ground arith)

-- What `readexactly` promises: as many bytes as were asked for.
abbrev pub IsExact : {R : Type 0} → StreamReader R → Type 0
IsExact {R} reader =
    (n : ℕ) (r s : R) (b : Text) → reader.readexactly n r ≡ (s, body b) → length b ≡ n

-- A request within the limits: on its first line, on the number of the headers, on each of them and on
-- all of them, and on the body.
abbrev pub IsBounded : ReceiverLimits → Request → Type 0
IsBounded limits request =
    StartsWithin limits.max_request_line_bytes (request.method, request.path)
    × Fits limits.max_header_count limits.max_total_header_bytes limits.max_header_line_bytes
        request.headers
    × (length request.raw_body ≤ limits.max_body_bytes)

module _ {R : Type 0} (reader : StreamReader R) (limits : ReceiverLimits) where
  read_line-IsHandled :
      (max_bytes status : ℕ) (r : R)
      → is_rejection status ≡ true
      → IsHandled (λ l. length l ≤ max_bytes) (read_line reader limits max_bytes status r).1
  unfolding read_line
  read_line-IsHandled max_bytes status r h =
      checked_line-IsHandled max_bytes status (reader.readline r).1 h

  -- The headers read so far, of which there are so many with so many bytes.
  abbrev HasRead : ℕ → ℕ → Headers → Type 0
  HasRead count total headers =
      Fits count total limits.max_header_line_bytes headers
      × (count ≤ limits.max_header_count)
      × (total ≤ limits.max_total_header_bytes)

  abbrev AllFit : Headers → Type 0
  AllFit headers =
      Fits limits.max_header_count limits.max_total_header_bytes limits.max_header_line_bytes
        headers

  HasRead-AllFit :
      (count total : ℕ) (headers : Headers) → HasRead count total headers → AllFit headers
  HasRead-AllFit count total headers (h, c, t) = record {
    few = omega (arith, h.few);
    bytes = omega (arith, h.bytes);
    short = h.short;
  }

  take_header-IsHandled :
      (count total : ℕ) (headers : Headers) (l : Text) (r : R)
      (next : ℕ → ℕ → Headers → R → R × Result Failure Headers)
      → HasRead count total headers
      → length l ≤ limits.max_header_line_bytes
      → ((more : Headers)
          → HasRead (suc count) (total + length l) more
          → IsHandled AllFit (next (suc count) (total + length l) more r).1)
      → IsHandled AllFit (take_header reader limits count total headers l r next).1
  unfolding take_header
  take_header-IsHandled count total headers l r next read short k =
      if_elim {A = R × Result Failure Headers} (λ p. IsHandled AllFit p.1) (is_blank l) _ _
        (λ _. HasRead-AllFit count total headers read)
        (λ _.
          if_elim {A = R × Result Failure Headers} (λ p. IsHandled AllFit p.1)
            (ltb limits.max_header_count (suc count)) _ _ (λ _. refl)
            (λ left.
              if_elim {A = R × Result Failure Headers} (λ p. IsHandled AllFit p.1)
                (ltb limits.max_total_header_bytes (total + length l)) _ _ (λ _. refl)
                (λ room. k (add_header headers (partition_on b':' [] l)) (
                  add_header-Fits headers l b':' count total limits.max_header_line_bytes read.0
                      short,
                  ground arith,
                  ground arith,
                ))))

  read_headers-IsHandled :
      (fuel count total : ℕ) (headers : Headers) (r : R)
      → HasRead count total headers
      → fuel + count ≡ suc limits.max_header_count
      → IsHandled AllFit (read_headers reader limits fuel count total headers r).1
  unfolding read_headers
  read_headers-IsHandled zero count total headers r (fits, few, small) enough =
      absurd (omega (arith, few, enough))
  read_headers-IsHandled (suc fuel) count total headers r read enough =
      and_then-IsHandled (λ l. length l ≤ limits.max_header_line_bytes) AllFit _ _
        (read_line-IsHandled limits.max_header_line_bytes 431 r refl)
        (λ l s short.
          take_header-IsHandled count total headers l s
            (λ c t h u. read_headers reader limits fuel c t h u) read short
            (λ more grown.
              read_headers-IsHandled fuel (suc count) (total + length l) more s grown
                (omega (arith, enough))))

  none_read : HasRead 0 0 []
  unfolding header_bytes
  none_read =
      (record { few = omega arith; bytes = omega arith; short = tt }, omega arith, omega arith)

  module _ (exact : IsExact reader) where
    on_body-IsHandled :
        (n : ℕ) (p : R × BodyRead)
        → ((s : R) (b : Text) → p ≡ (s, body b) → length b ≡ n)
        → IsHandled (λ b. length b ≡ n) (on_body reader limits p).1
    on_body-IsHandled n (r, body b) h = h r b refl
    on_body-IsHandled n (r, incomplete) h = tt
    on_body-IsHandled n (r, late_body) h = tt
    on_body-IsHandled n (r, reset_body) h = tt

    read_body-IsHandled :
        (n : ℕ) (r : R) → IsHandled (λ b. length b ≡ n) (read_body reader limits n r).1
    unfolding read_body
    read_body-IsHandled zero r = refl
    read_body-IsHandled (suc n) r =
        on_body-IsHandled (suc n) (reader.readexactly (suc n) r) (λ s b e. exact (suc n) r s b e)

    parse_rest-IsHandled :
        (start : Text × Text) (r : R)
        → StartsWithin limits.max_request_line_bytes start
        → IsHandled (IsBounded limits) (parse_rest reader limits start r).1
    unfolding parse_rest content_length
    parse_rest-IsHandled (method, path) r begun =
        and_then-IsHandled AllFit (IsBounded limits) _ _
          (read_headers-IsHandled (suc limits.max_header_count) 0 0 [] r none_read (omega arith))
          (λ headers r fit.
            and_then-IsHandled (λ n. n ≤ limits.max_body_bytes) (IsBounded limits) _ _
              (body_length-IsHandled limits _)
              (λ n r small.
                and_then-IsHandled (λ b. length b ≡ n) (IsBounded limits) _ _
                  (read_body-IsHandled n r) (λ b r same. (begun, fit, omega (arith, small, same)))))

    -- Whatever the peer sends, and however slowly, the parse ends: it reads at most one header line
    -- more than the limit allows, so its loop never runs out of rounds. A request that it gives keeps
    -- the limits on the request line, the number of headers, each header and all of them, and the body,
    -- where `readexactly` gives as many bytes as asked for; anything else is a 400, 413, 414 or 431, a
    -- timeout, a peer that went away, or the error of a read on a connection that was reset.
    pub parse-IsHandled : (r : R) → IsHandled (IsBounded limits) (parse reader limits r).1
    unfolding parse
    parse-IsHandled r =
        and_then-IsHandled (λ l. length l ≤ limits.max_request_line_bytes) (IsBounded limits) _ _
          (read_line-IsHandled limits.max_request_line_bytes 414 r refl)
          (λ l r short.
            and_then-IsHandled (StartsWithin limits.max_request_line_bytes) (IsBounded limits) _ _
              (parse_request_line-IsHandled l limits.max_request_line_bytes short)
              (λ start r begun. parse_rest-IsHandled start r begun))
