-- ===== src/Prompt/Defang.antt =====
-- `_defang_marker_runs` of prompt_assembler.py: the regular expression is read as a machine over the
-- characters, which holds a run back until it knows where the run ends.
use Prim.Native.Char.{Char, code}
use agent_keep.Base.{
  ℕ, suc, String, Bool, true, false, ◌||◌, ◌≡◌, refl, ap, List, [], ◌∷◌, ◌++◌, ltb, leb, ◌==◌,
  if◌then◌else◌,
}

pub data Side : Type 0 where
  opening closing : Side

-- A character, as the regular expression's classes tell it from others.
pub data CharKind : Type 0 where
  angle : Side → CharKind
  zero_width plain : CharKind

abbrev is_open_angle : ℕ → Bool
is_open_angle n = n == 0x3C || n == 0xFF1C || n == 0xFE64

abbrev is_close_angle : ℕ → Bool
is_close_angle n = n == 0x3E || n == 0xFF1E || n == 0xFE65

abbrev is_zero_width : ℕ → Bool
is_zero_width n = n == 0x200B || n == 0x200C || n == 0x200D || n == 0xFEFF

unfoldable pub kind_of : Char → CharKind
kind_of c =
    if is_open_angle (code c)
    then angle opening
    else if is_close_angle (code c)
    then angle closing
    else if is_zero_width (code c)
    then zero_width
    else plain

abbrev pub same_side : Side → Side → Bool
same_side opening opening = true
same_side closing closing = true
same_side _ _ = false

-- A run of angles of one side that is held back: how many they are, the first two, the text from the
-- first to the last of them, and the zero-width characters that came since.
pub data Pending : Type 0 where
  idle : Pending
  run : Side → ℕ → List Char → List Char → List Char → Pending

-- `_collapse_run` of three angles or more; fewer are no match.
abbrev pub collapse : ℕ → List Char → List Char → List Char
collapse count first_two raw = if leb 3 count then first_two else raw

-- What is written when the run ends here.
abbrev pub flush : Pending → List Char
flush idle = []
flush (run side count first_two raw gap) = collapse count first_two raw ++ gap

abbrev pub start : CharKind → Char → List Char × Pending
start (angle side) c = ([], run side 1 (c ∷ []) (c ∷ []) [])
start zero_width c = (c ∷ [], idle)
start plain c = (c ∷ [], idle)

abbrev pub extend :
    Side → ℕ → List Char → List Char → List Char → CharKind → Char → List Char × Pending
extend side count first_two raw gap (angle other) c =
    if same_side side other
    then (
      [],
      run side (suc count) (if ltb count 2 then first_two ++ c ∷ [] else first_two)
          (raw ++ gap ++ c ∷ []) [],
    )
    else (flush (run side count first_two raw gap), run other 1 (c ∷ []) (c ∷ []) [])
extend side count first_two raw gap zero_width c =
    ([], run side count first_two raw (gap ++ c ∷ []))
extend side count first_two raw gap plain c =
    (flush (run side count first_two raw gap) ++ c ∷ [], idle)

-- What is written on a character, and what is held back then.
abbrev pub feed : Pending → Char → List Char × Pending
feed idle c = start (kind_of c) c
feed (run side count first_two raw gap) c = extend side count first_two raw gap (kind_of c) c

unfoldable pub substitute : Pending → List Char → List Char
unfolding kind_of
substitute pending [] = flush pending
substitute pending (c ∷ s) = let (written, held) = feed pending c in written ++ substitute held s

unfoldable pub chars : String → List Char
chars String.[] = []
chars (String.◌∷◌ c s) = c ∷ chars s

unfoldable pub from_chars : List Char → String
from_chars [] = String.[]
from_chars (c ∷ s) = String.◌∷◌ c (from_chars s)

unfoldable pub defang_marker_runs : String → String
unfolding from_chars chars substitute
defang_marker_runs text = from_chars (substitute idle (chars text))

pub chars-from_chars : (s : List Char) → chars (from_chars s) ≡ s
unfolding chars from_chars
chars-from_chars [] = refl
chars-from_chars (c ∷ s) = ap (◌∷◌ c) (chars-from_chars s)

pub from_chars-chars : (s : String) → from_chars (chars s) ≡ s
unfolding chars from_chars
from_chars-chars String.[] = refl
from_chars-chars (String.◌∷◌ c s) = ap (String.◌∷◌ c) (from_chars-chars s)
