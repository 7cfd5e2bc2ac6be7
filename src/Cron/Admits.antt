-- ===== src/Cron/Admits.antt =====
-- Which values one item of a field of keep_spec/cron.py admits.
use native.Mathlib.Nat.{zero-mul, suc-mul}
use agent_keep.Base.{
  ◌&&◌, ℕ, zero, suc, ◌+◌, ◌-◌, ◌*◌, ◌≤◌, ◌<◌, Bool, true, false, ◌≡◌, ◌↔◌, inl, inr, List, [],
  Result, ok, err, arith, ltb, leb, ◌==◌, ==_iff, Bool-cases, if_elim, is_empty,
}
use agent_keep.Egress.Text.{Text, same_text}
use agent_keep.Words.{partition_on}
use agent_keep.Cron.Parse.{
  CronSyntaxError, FieldBounds, in_set, is_number, int_of, range, parse_number, parse_step, star,
  ordered, single, parse_numbers, parse_span, span_values, stepped, parse_parts, parse_item,
}

-- The value is reached from the start in steps, and is not behind the stop.
abbrev pub Reaches : ℕ → ℕ → ℕ → ℕ → Type 0
Reaches start stop step v = (k : ℕ) × (v ≡ start + k * step) × (v ≤ stop)

range_in :
    (n start stop step v : ℕ)
    → 1 ≤ step
    → stop < start + n
    → (in_set v (range n start stop step) ≡ true)
    → Reaches start stop step v
unfolding range in_set
range_in zero start stop step v h enough e = cc
range_in (suc n) start stop step v h enough e = elim (Bool-cases (ltb stop start)) [
  | inl done ↦ cc (done)
  | inr more ↦ elim (Bool-cases (start == v)) [
    | inl here ↦ (0, ground (arith, zero-mul step), ground arith)
    | inr later ↦
        let (k, eq, le) =
          range_in n (start + step) stop step v h (omega arith) (rw (more, later) at e) in
        (suc k, omega (arith, eq, suc-mul k step), le)
  ]
]

in_range :
    (n start stop step v : ℕ)
    → 1 ≤ step
    → stop < start + n
    → Reaches start stop step v
    → in_set v (range n start stop step) ≡ true
unfolding range in_set
in_range zero start stop step v h enough (k, eq, le) = absurd (omega (arith, eq, le, enough))
in_range (suc n) start stop step v h enough (zero, eq, le) =
    ground (arith, zero-mul step, ==_iff start v)
in_range (suc n) start stop step v h enough (suc k, eq, le) =
    let rest =
      in_range n (start + step) stop step v h (omega arith)
        (k, omega (arith, eq, suc-mul k step), le) in
    ground (arith, rest, suc-mul k step)

-- The values of an item, as numbers in the field's bounds, one at least.
abbrev pub IsProgression : FieldBounds → List ℕ → Type 0
IsProgression b values =
    (start stop step : ℕ) × (b.low ≤ start)
    × (start ≤ stop)
    × (stop ≤ b.high)
    × (1 ≤ step)
    × ((v : ℕ) → (in_set v values ≡ true) ↔ Reaches start stop step v)

-- A result that is this, or an error.
abbrev pub OnOk : {A : Type 0} → (A → Type 0) → Result CronSyntaxError A → Type 0
OnOk P (ok x) = P x
OnOk P (err e) = Unit

abbrev InBounds : FieldBounds → ℕ → Type 0
InBounds b v = (b.low ≤ v) × (v ≤ b.high)

parse_number-InBounds : (b : FieldBounds) (token : Text) → OnOk (InBounds b) (parse_number b token)
unfolding parse_number
parse_number-InBounds b token =
    if_elim (OnOk (InBounds b)) (is_number token) _ _
      (λ _.
        if_elim (OnOk (InBounds b)) (leb b.low (int_of token) && leb (int_of token) b.high) _ _
          (λ e. (ground arith, ground arith)) (λ _. tt))
      (λ _. tt)

-- A span within the bounds, that does not run backwards.
abbrev IsSpan : FieldBounds → ℕ × ℕ → Type 0
IsSpan b (start, stop) = (b.low ≤ start) × (start ≤ stop) × (stop ≤ b.high)

ordered-IsSpan :
    (b : FieldBounds) (span : Text) (start stop : Result CronSyntaxError ℕ)
    → OnOk (InBounds b) start
    → OnOk (InBounds b) stop
    → OnOk (IsSpan b) (ordered b span start stop)
ordered-IsSpan b span (err e) stop h k = tt
ordered-IsSpan b span (ok start) (err e) h k = tt
ordered-IsSpan b span (ok start) (ok stop) h k =
    if_elim (OnOk (IsSpan b)) (ltb stop start) _ _ (λ _. tt) (λ e. (h.0, ground arith, k.1))

single-IsSpan :
    (b : FieldBounds) (value : Result CronSyntaxError ℕ)
    → OnOk (InBounds b) value
    → OnOk (IsSpan b) (single value)
single-IsSpan b (err e) h = tt
single-IsSpan b (ok value) h = (h.0, omega arith, h.1)

parse_numbers-IsSpan :
    (b : FieldBounds) (item span : Text) (slash : Bool) (parts : Text × Bool × Text)
    → OnOk (IsSpan b) (parse_numbers b item span slash parts)
parse_numbers-IsSpan b item span slash (lo_text, true, hi_text) =
    ordered-IsSpan b span _ _ (parse_number-InBounds b lo_text) (parse_number-InBounds b hi_text)
parse_numbers-IsSpan b item span true (whole, false, rest) = tt
parse_numbers-IsSpan b item span false (whole, false, rest) =
    single-IsSpan b _ (parse_number-InBounds b span)

parse_span-IsSpan :
    (b : FieldBounds) (item span : Text) (slash : Bool)
    → b.low ≤ b.high
    → OnOk (IsSpan b) (parse_span b item span slash)
unfolding parse_span
parse_span-IsSpan b item span slash h =
    if_elim (OnOk (IsSpan b)) (same_text span star) _ _ (λ _. (omega arith, h, omega arith))
      (λ _. parse_numbers-IsSpan b item span slash (partition_on b'-' [] span))

parse_step-positive :
    (b : FieldBounds) (slash : Bool) (step_text : Text)
    → OnOk (λ step. 1 ≤ step) (parse_step b slash step_text)
unfolding parse_step
parse_step-positive b false step_text = omega arith
parse_step-positive b true step_text =
    if_elim (OnOk (λ step. 1 ≤ step)) (is_number step_text && leb 1 (int_of step_text)) _ _
      (λ e. ground arith) (λ _. tt)

span_values-IsProgression :
    (b : FieldBounds) (span : Result CronSyntaxError (ℕ × ℕ)) (step : ℕ)
    → OnOk (IsSpan b) span
    → 1 ≤ step
    → OnOk (IsProgression b) (span_values span step)
span_values-IsProgression b (err e) step h positive = tt
span_values-IsProgression b (ok (start, stop)) step (low, order, high) positive = (
  start,
  stop,
  step,
  low,
  order,
  high,
  positive,
  λ v. (
    range_in (suc stop - start) start stop step v positive (omega arith),
    in_range (suc stop - start) start stop step v positive (omega arith),
  ),
)

stepped-IsProgression :
    (b : FieldBounds) (item span : Text) (slash : Bool) (step : Result CronSyntaxError ℕ)
    → b.low ≤ b.high
    → OnOk (λ n. 1 ≤ n) step
    → OnOk (IsProgression b) (stepped b item span slash step)
stepped-IsProgression b item span slash (err e) h positive = tt
stepped-IsProgression b item span slash (ok step) h positive =
    span_values-IsProgression b (parse_span b item span slash) step
      (parse_span-IsSpan b item span slash h) positive

parse_parts-IsProgression :
    (b : FieldBounds) (item : Text) (parts : Text × Bool × Text)
    → b.low ≤ b.high
    → OnOk (IsProgression b) (parse_parts b item parts)
parse_parts-IsProgression b item (span, slash, step_text) h =
    stepped-IsProgression b item span slash _ h (parse_step-positive b slash step_text)

-- An item that parses admits the numbers that its steps reach from its start to its stop, and no
-- other; they lie within the field's bounds, and the start is one of them.
pub parse_item-IsProgression :
    (b : FieldBounds) (field item : Text)
    → b.low ≤ b.high
    → OnOk (IsProgression b) (parse_item b field item)
unfolding parse_item
parse_item-IsProgression b field item h =
    if_elim (OnOk (IsProgression b)) (is_empty item) _ _ (λ _. tt)
      (λ _. parse_parts-IsProgression b item (partition_on b'/' [] item) h)
