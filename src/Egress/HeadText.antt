-- ===== src/Egress/HeadText.antt =====
-- The characters, patterns and constants of a request head in keep_egress/proxy.py, over its bytes.
use agent_keep.Base.{
  ℕ, zero, suc, Bool, true, false, not, ◌&&◌, ◌||◌, List, [], ◌∷◌, ◌++◌, length, is_empty, ltb, leb,
  ◌==◌, if◌then◌else◌,
}
use agent_keep.Egress.Text.{Text, same_text, lower_code, is_digit}
use agent_keep.Egress.Match.{chomp}

abbrev pub is_alpha : ℕ → Bool
is_alpha c = let d = lower_code c in leb b'a' d && leb d b'z'

unfoldable pub all_alpha : Text → Bool
all_alpha [] = true
all_alpha (c ∷ s) = is_alpha c && all_alpha s

-- `_METHOD_TOKEN`, whose `$` matches before a line feed at the end, too.
abbrev pub is_method : Text → Bool
is_method s = not (is_empty (chomp s)) && leb (length (chomp s)) 32 && all_alpha (chomp s)

abbrev pub is_alnum : ℕ → Bool
is_alnum c = is_alpha c || is_digit c

unfoldable pub all_host : Text → Bool
all_host [] = true
all_host (c ∷ s) = (is_alnum c || c == b'.' || c == b'-') && all_host s

abbrev pub is_host : Text → Bool
is_host [] = false
is_host (c ∷ s) = is_alnum c && all_host s

-- `bytes.split(b"\r\n")`, from the piece read so far.
unfoldable pub split_lines : Text → Text → List Text
split_lines piece [] = piece ∷ []
split_lines piece (c ∷ []) = (piece ++ c ∷ []) ∷ []
split_lines piece (c ∷ d ∷ s) = elim (c == 0x0D && d == 0x0A) [
  | true ↦ piece ∷ split_lines [] s
  | false ↦ split_lines (piece ++ c ∷ []) (d ∷ s)
]

unfoldable pub take : ℕ → Text → Text
take zero s = []
take (suc n) [] = []
take (suc n) (c ∷ s) = c ∷ take n s

unfoldable pub is_ascii : Text → Bool
is_ascii [] = true
is_ascii (c ∷ s) = ltb c 128 && is_ascii s

unfoldable pub starts_with : Text → Text → Bool
starts_with prefix [] = is_empty prefix
starts_with [] (c ∷ s) = true
starts_with (d ∷ prefix) (c ∷ s) = d == c && starts_with prefix s

abbrev pub http_slash : Text
http_slash = b'H' ∷ b'T' ∷ b'T' ∷ b'P' ∷ b'/' ∷ []

abbrev pub connect_name : Text
connect_name = b'c' ∷ b'o' ∷ b'n' ∷ b'n' ∷ b'e' ∷ b'c' ∷ b't' ∷ []

abbrev pub http_prefix : Text
http_prefix = b'h' ∷ b't' ∷ b't' ∷ b'p' ∷ b':' ∷ b'/' ∷ b'/' ∷ []

abbrev pub https_name : Text
https_name = b'h' ∷ b't' ∷ b't' ∷ b'p' ∷ b's' ∷ []

abbrev pub https_prefix : Text
https_prefix = b'h' ∷ b't' ∷ b't' ∷ b'p' ∷ b's' ∷ b':' ∷ b'/' ∷ b'/' ∷ []

unfoldable pub has_bracket : Text → Bool
has_bracket [] = false
has_bracket (c ∷ s) = c == b'[' || has_bracket s

-- `_HOP_BY_HOP`
abbrev pub hop_by_hop : List Text
hop_by_hop =
    (b'c' ∷ b'o' ∷ b'n' ∷ b'n' ∷ b'e' ∷ b'c' ∷ b't' ∷ b'i' ∷ b'o' ∷ b'n' ∷ [])
    ∷ (b'p' ∷ b'r' ∷ b'o' ∷ b'x' ∷ b'y' ∷ b'-' ∷ b'c' ∷ b'o' ∷ b'n' ∷ b'n' ∷ b'e' ∷ b'c' ∷ b't'
        ∷ b'i' ∷ b'o' ∷ b'n' ∷ [])
    ∷ (b'k' ∷ b'e' ∷ b'e' ∷ b'p' ∷ b'-' ∷ b'a' ∷ b'l' ∷ b'i' ∷ b'v' ∷ b'e' ∷ [])
    ∷ (b'p' ∷ b'r' ∷ b'o' ∷ b'x' ∷ b'y' ∷ b'-' ∷ b'a' ∷ b'u' ∷ b't' ∷ b'h' ∷ b'o' ∷ b'r' ∷ b'i'
        ∷ b'z' ∷ b'a' ∷ b't' ∷ b'i' ∷ b'o' ∷ b'n' ∷ [])
    ∷ []

unfoldable pub is_one_of : List Text → Text → Bool
is_one_of [] s = false
is_one_of (t ∷ ts) s = same_text s t || is_one_of ts s

-- `bytes.strip()`
abbrev pub is_byte_space : ℕ → Bool
is_byte_space c = c == 0x20 || leb 0x09 c && leb c 0x0D

unfoldable pub lstrip : Text → Text
lstrip [] = []
lstrip (c ∷ s) = if is_byte_space c then lstrip s else c ∷ s

abbrev pub keep_byte : ℕ → Text → Text
keep_byte c [] = if is_byte_space c then [] else c ∷ []
keep_byte c (d ∷ s) = c ∷ d ∷ s

unfoldable pub rstrip : Text → Text
rstrip [] = []
rstrip (c ∷ s) = keep_byte c (rstrip s)

-- `Connection: close`
abbrev pub connection_close : Text
connection_close =
    b'C' ∷ b'o' ∷ b'n' ∷ b'n' ∷ b'e' ∷ b'c' ∷ b't' ∷ b'i' ∷ b'o' ∷ b'n' ∷ b':' ∷ b' ' ∷ b'c' ∷ b'l'
    ∷ b'o' ∷ b's' ∷ b'e' ∷ []

abbrev pub crlf : Text
crlf = 0x0D ∷ 0x0A ∷ []

unfoldable pub join_lines : List Text → Text
join_lines [] = []
join_lines (l ∷ []) = l
join_lines (l ∷ m ∷ ls) = l ++ crlf ++ join_lines (m ∷ ls)
