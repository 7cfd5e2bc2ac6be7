-- ===== src/Cron/Parse.antt =====
-- `parse_cron` of keep_spec/cron.py. A set of numbers is the list of what was put into it; only what it
-- contains is read.
use agent_keep.Base.{
  ℕ, zero, suc, ◌+◌, ◌-◌, ◌%◌, String, Bool, true, false, not, ◌&&◌, ◌||◌, List, [], ◌∷◌, ◌++◌, map,
  Result, ok, err, length, is_empty, ltb, leb, ◌==◌, if◌then◌else◌,
}
use agent_keep.Egress.Text.{Text, same_text, all_digits, number_from}
use agent_keep.Words.{split_on, partition_on, is_space, split_words}

-- `CronSyntaxError`, by what its message says.
pub data CronSyntaxError : Type 0 where
  not_a_number empty_item bad_step backwards step_without_range : String → Text → CronSyntaxError
  out_of_range : String → ℕ → CronSyntaxError
  field_count : ℕ → Bool → CronSyntaxError

-- A row of `_FIELD_BOUNDS`.
pub record FieldBounds : Type 0 where
  pub name : String
  pub low : ℕ
  pub high : ℕ

abbrev pub minute_bounds : FieldBounds
minute_bounds = record { name = "minute"; low = 0; high = 59 }

abbrev pub hour_bounds : FieldBounds
hour_bounds = record { name = "hour"; low = 0; high = 23 }

abbrev pub day_of_month_bounds : FieldBounds
day_of_month_bounds = record { name = "day-of-month"; low = 1; high = 31 }

abbrev pub month_bounds : FieldBounds
month_bounds = record { name = "month"; low = 1; high = 12 }

abbrev pub day_of_week_bounds : FieldBounds
day_of_week_bounds = record { name = "day-of-week"; low = 0; high = 7 }

pub record CronFields : Type 0 where
  pub minutes : List ℕ
  pub hours : List ℕ
  pub days_of_month : List ℕ
  pub months : List ℕ
  pub days_of_week : List ℕ
  pub dom_restricted : Bool
  pub dow_restricted : Bool

-- `value in values`
unfoldable pub in_set : ℕ → List ℕ → Bool
in_set v [] = false
in_set v (w ∷ ws) = w == v || in_set v ws

-- `token.isdigit()`
abbrev pub is_number : Text → Bool
is_number token = not (is_empty token) && all_digits token

abbrev pub int_of : Text → ℕ
int_of token = number_from 0 token

-- `text.strip().startswith("@")`
unfoldable pub starts_with_at : Text → Bool
starts_with_at [] = false
starts_with_at (c ∷ s) = if is_space c then starts_with_at s else c == b'@'

-- `range(start, stop + 1, step)`, with at most `n` numbers.
unfoldable pub range : ℕ → ℕ → ℕ → ℕ → List ℕ
range zero start stop step = []
range (suc n) start stop step =
    let rest = range n (start + step) stop step in if ltb stop start then [] else start ∷ rest

unfoldable pub parse_number : FieldBounds → Text → Result CronSyntaxError ℕ
unfolding all_digits number_from
parse_number b token =
    if is_number token
    then if leb b.low (int_of token) && leb (int_of token) b.high
      then ok (int_of token)
      else err (out_of_range b.name (int_of token))
    else err (not_a_number b.name token)

-- The step that is written behind the slash.
unfoldable pub parse_step : FieldBounds → Bool → Text → Result CronSyntaxError ℕ
unfolding all_digits number_from
parse_step b false step_text = ok 1
parse_step b true step_text =
    if is_number step_text && leb 1 (int_of step_text)
    then ok (int_of step_text)
    else err (bad_step b.name step_text)

abbrev pub star : Text
star = b'*' ∷ []

abbrev pub ordered :
    FieldBounds
    → Text
    → Result CronSyntaxError ℕ
    → Result CronSyntaxError ℕ
    → Result CronSyntaxError (ℕ × ℕ)
ordered b span (err e) stop = err e
ordered b span (ok start) (err e) = err e
ordered b span (ok start) (ok stop) =
    if ltb stop start then err (backwards b.name span) else ok (start, stop)

abbrev pub single : Result CronSyntaxError ℕ → Result CronSyntaxError (ℕ × ℕ)
single (err e) = err e
single (ok value) = ok (value, value)

-- A span with a hyphen, or one number, which takes no step.
abbrev pub parse_numbers :
    FieldBounds → Text → Text → Bool → Text × Bool × Text → Result CronSyntaxError (ℕ × ℕ)
parse_numbers b item span slash (lo_text, true, hi_text) =
    ordered b span (parse_number b lo_text) (parse_number b hi_text)
parse_numbers b item span true (whole, false, rest) = err (step_without_range b.name item)
parse_numbers b item span false (whole, false, rest) = single (parse_number b span)

-- The first and the last value of an item's span.
unfoldable pub parse_span : FieldBounds → Text → Text → Bool → Result CronSyntaxError (ℕ × ℕ)
unfolding parse_number same_text partition_on
parse_span b item span slash =
    if same_text span star
    then ok (b.low, b.high)
    else parse_numbers b item span slash (partition_on b'-' [] span)

abbrev pub span_values : Result CronSyntaxError (ℕ × ℕ) → ℕ → Result CronSyntaxError (List ℕ)
span_values (err e) step = err e
span_values (ok (start, stop)) step = ok (range (suc stop - start) start stop step)

abbrev pub stepped :
    FieldBounds → Text → Text → Bool → Result CronSyntaxError ℕ → Result CronSyntaxError (List ℕ)
stepped b item span slash (err e) = err e
stepped b item span slash (ok step) = span_values (parse_span b item span slash) step

abbrev pub parse_parts : FieldBounds → Text → Text × Bool × Text → Result CronSyntaxError (List ℕ)
parse_parts b item (span, slash, step_text) =
    stepped b item span slash (parse_step b slash step_text)

-- The values that one item of a field's list adds.
unfoldable pub parse_item : FieldBounds → Text → Text → Result CronSyntaxError (List ℕ)
unfolding parse_step parse_span range partition_on
parse_item b field item =
    if is_empty item
    then err (empty_item b.name field)
    else parse_parts b item (partition_on b'/' [] item)

abbrev pub union :
    Result CronSyntaxError (List ℕ)
    → Result CronSyntaxError (List ℕ)
    → Result CronSyntaxError (List ℕ)
union (err e) rest = err e
union (ok values) (err e) = err e
union (ok values) (ok more) = ok (values ++ more)

unfoldable pub parse_items : FieldBounds → Text → List Text → Result CronSyntaxError (List ℕ)
unfolding parse_item
parse_items b field [] = ok []
parse_items b field (item ∷ items) = union (parse_item b field item) (parse_items b field items)

unfoldable pub parse_field : FieldBounds → Text → Result CronSyntaxError (List ℕ)
unfolding parse_items split_on
parse_field b field = parse_items b field (split_on b',' [] field)

-- The fields are parsed in their order; the first that is wrong raises.
abbrev pub fields_of :
    Text
    → Text
    → Result CronSyntaxError (List ℕ)
    → Result CronSyntaxError (List ℕ)
    → Result CronSyntaxError (List ℕ)
    → Result CronSyntaxError (List ℕ)
    → Result CronSyntaxError (List ℕ)
    → Result CronSyntaxError CronFields
fields_of dom dow (err e) _ _ _ _ = err e
fields_of dom dow (ok a) (err e) _ _ _ = err e
fields_of dom dow (ok a) (ok b) (err e) _ _ = err e
fields_of dom dow (ok a) (ok b) (ok c) (err e) _ = err e
fields_of dom dow (ok a) (ok b) (ok c) (ok d) (err e) = err e
fields_of dom dow (ok a) (ok b) (ok c) (ok d) (ok dow_raw) = ok (record {
  minutes = a;
  hours = b;
  days_of_month = c;
  months = d;
  days_of_week = map (λ value. value % 7) dow_raw;
  dom_restricted = not (same_text dom star);
  dow_restricted = not (same_text dow star);
})

unfoldable pub parse_words : Text → List Text → Result CronSyntaxError CronFields
unfolding parse_field starts_with_at same_text
parse_words expr (minute ∷ hour ∷ dom ∷ month ∷ dow ∷ []) =
    fields_of dom dow (parse_field minute_bounds minute) (parse_field hour_bounds hour)
      (parse_field day_of_month_bounds dom) (parse_field month_bounds month)
      (parse_field day_of_week_bounds dow)
parse_words expr fields = err (field_count (length fields) (starts_with_at expr))

unfoldable pub parse_cron : Text → Result CronSyntaxError CronFields
unfolding parse_words split_words
parse_cron expr = parse_words expr (split_words [] expr)
