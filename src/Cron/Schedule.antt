-- ===== src/Cron/Schedule.antt =====
-- Which values a whole schedule of keep_spec/cron.py admits.
use native.Mathlib.Nat.{zero-mul}
use agent_keep.Base.{
  ℕ, ◌%◌, ◌≤◌, true, ◌||◌, ◌≡◌, refl, inl, inr, List, [], ◌∷◌, ◌++◌, map, Result, ok, err, arith,
  ◌==◌, ==_iff, Bool-cases, if_elim,
}
use agent_keep.Egress.Text.{Text}
use agent_keep.Words.{split_on, split_words}
use agent_keep.Cron.Parse.{
  CronSyntaxError, FieldBounds, minute_bounds, hour_bounds, day_of_month_bounds, month_bounds,
  day_of_week_bounds, CronFields, in_set, union, parse_item, parse_items, parse_field, fields_of,
  parse_words, parse_cron,
}
use agent_keep.Cron.Admits.{IsProgression, OnOk, parse_item-IsProgression}

-- Every value lies between the two.
abbrev IsWithin : ℕ → ℕ → List ℕ → Type 0
IsWithin low high values = (v : ℕ) → in_set v values ≡ true → (low ≤ v) × (v ≤ high)

-- And there is one.
abbrev pub IsChoice : ℕ → ℕ → List ℕ → Type 0
IsChoice low high values = IsWithin low high values × ((v : ℕ) × (in_set v values ≡ true))

progression-IsChoice :
    (b : FieldBounds) (values : List ℕ) → IsProgression b values → IsChoice b.low b.high values
progression-IsChoice b values (start, stop, step, low, order, high, positive, reaches) = (
  λ v e. let (k, eq, le) = (reaches v).0 e in (omega (arith, eq, low), omega (arith, le, high)),
  (start, (reaches start).1 (0, ground (arith, zero-mul step), order)),
)

in_set-append : (v : ℕ) (xs ys : List ℕ) → in_set v (xs ++ ys) ≡ (in_set v xs || in_set v ys)
unfolding in_set
in_set-append v [] ys = refl
in_set-append v (x ∷ xs) ys = ground (arith, in_set-append v xs ys)

append-IsChoice :
    (low high : ℕ) (xs ys : List ℕ)
    → IsChoice low high xs
    → IsWithin low high ys
    → IsChoice low high (xs ++ ys)
append-IsChoice low high xs ys (within, (v, e)) h = (
  λ w f. elim (Bool-cases (in_set w xs)) [
    | inl left ↦ within w left
    | inr right ↦ h w (rw (in_set-append w xs ys, right) at f)
  ],
  (v, rw (in_set-append v xs ys, e) refl),
)

union-IsChoice :
    (low high : ℕ) (values more : Result CronSyntaxError (List ℕ))
    → OnOk (IsChoice low high) values
    → OnOk (IsWithin low high) more
    → OnOk (IsChoice low high) (union values more)
union-IsChoice low high (err e) more h k = tt
union-IsChoice low high (ok values) (err e) h k = tt
union-IsChoice low high (ok values) (ok more) h k = append-IsChoice low high values more h k

OnOk-map :
    {A : Type 0} (P Q : A → Type 0) (r : Result CronSyntaxError A)
    → ((x : A) → P x → Q x)
    → OnOk P r
    → OnOk Q r
OnOk-map P Q (ok x) f h = f x h
OnOk-map P Q (err e) f h = tt

-- One item in front of others.
item-IsChoice :
    (b : FieldBounds) (field item : Text) (more : Result CronSyntaxError (List ℕ))
    → b.low ≤ b.high
    → OnOk (IsWithin b.low b.high) more
    → OnOk (IsChoice b.low b.high) (union (parse_item b field item) more)
item-IsChoice b field item more h = union-IsChoice b.low b.high (parse_item b field item) more (
    OnOk-map (IsProgression b) (IsChoice b.low b.high) _ (progression-IsChoice b)
      (parse_item-IsProgression b field item h))

parse_items-IsWithin :
    (b : FieldBounds) (field : Text) (items : List Text)
    → b.low ≤ b.high
    → OnOk (IsWithin b.low b.high) (parse_items b field items)
unfolding parse_items in_set
parse_items-IsWithin b field [] h = λ v e. cc
parse_items-IsWithin b field (item ∷ items) h =
    OnOk-map (IsChoice b.low b.high) (IsWithin b.low b.high) _ (λ values c. c.0)
      (item-IsChoice b field item (parse_items b field items) h
        (parse_items-IsWithin b field items h))

split_on-split :
    (separator : ℕ) (piece s : Text)
    → (item : Text) × (items : List Text) × (split_on separator piece s ≡ item ∷ items)
unfolding split_on
split_on-split separator piece [] = (piece, [], refl)
split_on-split separator piece (c ∷ s) =
    if_elim (λ l. (item : Text) × (items : List Text) × (l ≡ item ∷ items)) (c == separator) _ _
      (λ _. (piece, split_on separator [] s, refl))
      (λ _. split_on-split separator (piece ++ c ∷ []) s)

parse_field-IsChoice :
    (b : FieldBounds) (field : Text)
    → b.low ≤ b.high
    → OnOk (IsChoice b.low b.high) (parse_field b field)
unfolding parse_field parse_items
parse_field-IsChoice b field h =
    let (item, items, e) = split_on-split b',' [] field in
    rw e (
      item-IsChoice b field item (parse_items b field items) h
        (parse_items-IsWithin b field items h))

weekday-IsWithin : (values : List ℕ) → IsWithin 0 6 (map (λ v. v % 7) values)
unfolding in_set
weekday-IsWithin [] v e = cc
weekday-IsWithin (w ∷ values) v e = elim (Bool-cases (w % 7 == v)) [
  | inl here ↦ (omega arith, ground arith)
  | inr later ↦ weekday-IsWithin values v (rw later at e)
]

weekday_exists :
    (values : List ℕ) (v : ℕ)
    → in_set v values ≡ true
    → in_set (v % 7) (map (λ v. v % 7) values) ≡ true
unfolding in_set
weekday_exists [] v e = cc
weekday_exists (w ∷ values) v e = elim (Bool-cases (w == v)) [
  | inl here ↦ ground (arith, ==_iff w v)
  | inr later ↦ let rest = weekday_exists values v (rw later at e) in rw rest (ground arith)
]

weekdays-IsChoice : (values : List ℕ) → IsChoice 0 7 values → IsChoice 0 6 (map (λ v. v % 7) values)
weekdays-IsChoice values (within, (v, e)) =
    (weekday-IsWithin values, (v % 7, weekday_exists values v e))

-- Every field of a schedule admits a value, and only values of its range.
abbrev pub IsRanged : CronFields → Type 0
IsRanged f =
    IsChoice 0 59 f.minutes
    × IsChoice 0 23 f.hours
    × IsChoice 1 31 f.days_of_month
    × IsChoice 1 12 f.months
    × IsChoice 0 6 f.days_of_week

fields_of-IsRanged :
    (dom dow : Text) (a b c d e : Result CronSyntaxError (List ℕ))
    → OnOk (IsChoice 0 59) a
    → OnOk (IsChoice 0 23) b
    → OnOk (IsChoice 1 31) c
    → OnOk (IsChoice 1 12) d
    → OnOk (IsChoice 0 7) e
    → OnOk IsRanged (fields_of dom dow a b c d e)
fields_of-IsRanged dom dow (err x) b c d e _ _ _ _ _ = tt
fields_of-IsRanged dom dow (ok a) (err x) c d e _ _ _ _ _ = tt
fields_of-IsRanged dom dow (ok a) (ok b) (err x) d e _ _ _ _ _ = tt
fields_of-IsRanged dom dow (ok a) (ok b) (ok c) (err x) e _ _ _ _ _ = tt
fields_of-IsRanged dom dow (ok a) (ok b) (ok c) (ok d) (err x) _ _ _ _ _ = tt
fields_of-IsRanged dom dow (ok a) (ok b) (ok c) (ok d) (ok e) ha hb hc hd he =
    (ha, hb, hc, hd, weekdays-IsChoice e he)

parse_words-IsRanged : (expr : Text) (words : List Text) → OnOk IsRanged (parse_words expr words)
unfolding parse_words
parse_words-IsRanged expr (minute ∷ hour ∷ dom ∷ month ∷ dow ∷ []) =
    fields_of-IsRanged dom dow _ _ _ _ _ (parse_field-IsChoice minute_bounds minute (omega arith))
      (parse_field-IsChoice hour_bounds hour (omega arith))
      (parse_field-IsChoice day_of_month_bounds dom (omega arith))
      (parse_field-IsChoice month_bounds month (omega arith))
      (parse_field-IsChoice day_of_week_bounds dow (omega arith))
parse_words-IsRanged expr [] = tt
parse_words-IsRanged expr (a ∷ []) = tt
parse_words-IsRanged expr (a ∷ b ∷ []) = tt
parse_words-IsRanged expr (a ∷ b ∷ c ∷ []) = tt
parse_words-IsRanged expr (a ∷ b ∷ c ∷ d ∷ []) = tt
parse_words-IsRanged expr (a ∷ b ∷ c ∷ d ∷ e ∷ f ∷ rest) = tt

-- Each of the five fields of a schedule that parses admits a value, and every value lies in the field's
-- range, days of the week as 0 to 6. (Whether a day exists in a month is not said.)
pub parse_cron-IsRanged : (expr : Text) → OnOk IsRanged (parse_cron expr)
unfolding parse_cron
parse_cron-IsRanged expr = parse_words-IsRanged expr (split_words [] expr)
