-- ===== src/Receiver/Lengths.antt =====
-- How long the texts are that `_parse` of http_receiver.py cuts out of the lines it reads.
use agent_keep.Base.{
  ℕ, suc, ◌+◌, ◌≤◌, Bool, ◌≡◌, refl, ap, List, [], ◌∷◌, ◌++◌, arith, length, length-append, ◌==◌,
  if_elim, All,
}
use agent_keep.Egress.Text.{Text, lower, same_text, same_text_iff}
use agent_keep.Words.{is_space, split_on, partition_on, strip_left, strip_right, keep_left, strip}
use agent_keep.Receiver.Request.{Headers, set_header, add_header}

length-lower : (s : Text) → length (lower s) ≡ length s
unfolding lower
length-lower [] = refl
length-lower (c ∷ s) = ap suc (length-lower s)

length-strip_left : (s : Text) → length (strip_left s) ≤ length s
unfolding strip_left
length-strip_left [] = omega arith
length-strip_left (c ∷ s) =
    if_elim (λ t. length t ≤ suc (length s)) (is_space c) (strip_left s) (c ∷ s)
      (λ _. omega (arith, length-strip_left s)) (λ _. omega arith)

length-keep_left : (c : ℕ) (s : Text) → length (keep_left c s) ≤ suc (length s)
length-keep_left c [] =
    if_elim (λ t. length t ≤ 1) (is_space c) [] (c ∷ []) (λ _. omega arith) (λ _. omega arith)
length-keep_left c (d ∷ s) = omega arith

length-strip_right : (s : Text) → length (strip_right s) ≤ length s
unfolding strip_right
length-strip_right [] = omega arith
length-strip_right (c ∷ s) = omega (arith, length-keep_left c (strip_right s), length-strip_right s)

pub length-strip : (s : Text) → length (strip s) ≤ length s
length-strip s = omega (arith, length-strip_right (strip_left s), length-strip_left s)

length-partition_on :
    (separator : ℕ) (before s : Text)
    → let (name, found, value) = partition_on separator before s in
      length name + length value ≤ length before + length s
unfolding partition_on
length-partition_on separator before [] = omega arith
length-partition_on separator before (c ∷ s) =
    if_elim (λ (p : Text × Bool × Text). length p.0 + length p.2 ≤ length before + suc (length s))
      (c == separator) _ _ (λ _. omega arith)
      (λ _.
        omega (
          arith,
          length-partition_on separator (before ++ c ∷ []) s,
          length-append before (c ∷ []),
        ))

unfoldable pub total_length : List Text → ℕ
total_length [] = 0
total_length (t ∷ ts) = length t + total_length ts

pub total_length-split_on :
    (separator : ℕ) (piece s : Text)
    → total_length (split_on separator piece s) ≤ length piece + length s
unfolding total_length split_on
total_length-split_on separator piece [] = omega arith
total_length-split_on separator piece (c ∷ s) =
    if_elim (λ ts. total_length ts ≤ length piece + suc (length s)) (c == separator) _ _
      (λ _. omega (arith, total_length-split_on separator [] s))
      (λ _.
        omega (
          arith,
          total_length-split_on separator (piece ++ c ∷ []) s,
          length-append piece (c ∷ []),
        ))

-- The bytes of the names and the values.
unfoldable pub header_bytes : Headers → ℕ
header_bytes [] = 0
header_bytes ((name, value) ∷ headers) = length name + length value + header_bytes headers

-- No header is longer than a line may be.
abbrev pub HasShort : ℕ → Headers → Type 0
HasShort most headers = All (λ h. length h.0 + length h.1 ≤ most) headers

-- The headers are no more, and no longer, than these numbers say.
pub record Fits (count total most : ℕ) (headers : Headers) : Type 0 where
  pub few : length headers ≤ count
  pub bytes : header_bytes headers ≤ total
  pub short : HasShort most headers

set_header-Fits :
    (headers : Headers) (name value : Text) (count total most n : ℕ)
    → Fits count total most headers
    → length name + length value ≤ n
    → n ≤ most
    → Fits (suc count) (total + n) most (set_header headers name value)
unfolding set_header header_bytes
set_header-Fits [] name value count total most n h short fits = record {
  few = omega arith;
  bytes = omega arith;
  short = (omega arith, tt);
}
set_header-Fits ((m, v) ∷ headers) name value count total most n h short fits =
    if_elim (Fits (suc count) (total + n) most) (same_text m name) _ _
      (λ same. record {
        few = omega (arith, h.few);
        bytes = omega (arith, h.bytes);
        short = (omega (arith, ap length ((same_text_iff m name).0 same)), h.short.1);
      })
      (λ _.
        let rest =
          set_header-Fits headers name value (length headers) (header_bytes headers) most n
            (record { few = omega arith; bytes = omega arith; short = h.short.1 }) short fits in
        record {
          few = omega (arith, h.few, rest.few);
          bytes = omega (arith, h.bytes, rest.bytes);
          short = (h.short.0, rest.short);
        })

pub add_header-Fits :
    (headers : Headers) (l : Text) (separator count total most : ℕ)
    → Fits count total most headers
    → length l ≤ most
    → Fits (suc count) (total + length l) most (add_header headers (partition_on separator [] l))
add_header-Fits headers l separator count total most h short =
    of_parts (partition_on separator [] l) (length-partition_on separator [] l)
  where
    of_parts :
        (p : Text × Bool × Text)
        → length p.0 + length p.2 ≤ 0 + length l
        → Fits (suc count) (total + length l) most (add_header headers p)
    of_parts (name, found, value) e =
        set_header-Fits headers (lower (strip name)) (strip value) count total most (length l) h
          (omega (arith, e, length-lower (strip name), length-strip name, length-strip value)) short
