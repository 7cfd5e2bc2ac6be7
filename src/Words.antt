-- ===== src/Words.antt =====
-- Python's splitting and trimming of texts, over code points. White space is that of ASCII.
use agent_keep.Base.{
  ℕ, Bool, true, false, ◌&&◌, ◌||◌, List, [], ◌∷◌, ◌++◌, leb, ◌==◌, if◌then◌else◌,
}
use agent_keep.Egress.Text.{Text}

-- `text.split(separator)`, from the piece read so far.
unfoldable pub split_on : ℕ → Text → Text → List Text
split_on separator piece [] = piece ∷ []
split_on separator piece (c ∷ s) =
    if c == separator
    then piece ∷ split_on separator [] s
    else split_on separator (piece ++ c ∷ []) s

-- `text.partition(separator)`, from what was read so far; the Boolean says whether it was found.
unfoldable pub partition_on : ℕ → Text → Text → Text × Bool × Text
partition_on separator before [] = (before, false, [])
partition_on separator before (c ∷ s) =
    if c == separator then (before, true, s) else partition_on separator (before ++ c ∷ []) s

abbrev pub is_space : ℕ → Bool
is_space c = c == 0x20 || leb 0x09 c && leb c 0x0D || leb 0x1C c && leb c 0x1F

abbrev pub put_word : Text → List Text → List Text
put_word [] rest = rest
put_word (c ∷ w) rest = (c ∷ w) ∷ rest

-- `text.split()`, from the word read so far.
unfoldable pub split_words : Text → Text → List Text
split_words word [] = put_word word []
split_words word (c ∷ s) =
    if is_space c then put_word word (split_words [] s) else split_words (word ++ c ∷ []) s

-- `text.lstrip()`
unfoldable pub strip_left : Text → Text
strip_left [] = []
strip_left (c ∷ s) = if is_space c then strip_left s else c ∷ s

abbrev pub keep_left : ℕ → Text → Text
keep_left c [] = if is_space c then [] else c ∷ []
keep_left c (d ∷ s) = c ∷ d ∷ s

-- `text.rstrip()`
unfoldable pub strip_right : Text → Text
strip_right [] = []
strip_right (c ∷ s) = keep_left c (strip_right s)

abbrev pub strip : Text → Text
strip s = strip_right (strip_left s)
