-- ===== src/Gateway/Principals.antt =====
-- `ascii_lower`, `_normalize_roster_id` and what they make one principal.
use Prim.Native.Char.{Char, char, code, IsScalar}
use Prim.Native.Nat.{Ordering, compare}
use Prim.Native.String
use text.Mathlib.TextLemmas.{nil-append, cons-append, append_cancel_left, append-nil}
use text.Mathlib.TextEquality.{Char-path}
use agent_keep.Base.{
  ℕ, ◌+◌, String, Bool, true, false, ◌&&◌, ◌||◌, ◌≡◌, ◌↔◌, refl, ap, ◌∙◌, [], ◌∷◌, arith, leb, ◌==◌,
  str_eq, concat, if◌then◌else◌,
}

abbrev pub is_upper : ℕ → Bool
is_upper n = leb b'A' n && leb n b'Z'

scalar_lowered : (n : ℕ) → is_upper n ≡ true → IsScalar (n + 32)
scalar_lowered n e = let small : compare (n + 32) 55296 ≡ Ordering.lt = ground arith in rw small tt

abbrev translated : (n : ℕ) → IsScalar n → (b : Bool) → (b ≡ true → IsScalar (n + 32)) → Char
translated n p true q = char (n + 32) (q refl)
translated n p false q = char n p

-- One entry of `_ASCII_LOWER`, or the character itself.
unfoldable pub lower_char : Char → Char
unfolding scalar_lowered
lower_char (char n p) = translated n p (is_upper n) (scalar_lowered n)

unfoldable pub ascii_lower : String → String
ascii_lower String.[] = ""
ascii_lower (String.◌∷◌ c s) = String.◌∷◌ (lower_char c) (ascii_lower s)

-- What `partition(":")` gives: the text before the first colon, whether there is one, the rest.
unfoldable pub partition : String → String × Bool × String
partition String.[] = ("", false, "")
partition (String.◌∷◌ c s) =
    let (before, found, after) = partition s in
    if code c == 58 then ("", true, s) else (String.◌∷◌ c before, found, after)

-- `"@" in s`
unfoldable pub has_at : String → Bool
has_at String.[] = false
has_at (String.◌∷◌ c s) = code c == 64 || has_at s

-- `strip` is `str.strip`.
abbrev pub normalized : (String → String) → String → String × Bool × String → String
normalized strip roster_id (platform, sep, platform_id) =
    if sep && str_eq platform "webex" && has_at platform_id
    then concat ("webex:" ∷ ascii_lower (strip platform_id) ∷ [])
    else roster_id

unfoldable pub normalize_roster_id : (String → String) → String → String
normalize_roster_id strip roster_id = normalized strip roster_id (partition roster_id)

code-translated :
    (n : ℕ) (p : IsScalar n) (b : Bool) (q : b ≡ true → IsScalar (n + 32))
    → code (translated n p b q) ≡ (if b then n + 32 else n)
code-translated n p true q = refl
code-translated n p false q = refl

code-lower_char :
    (c : Char) → code (lower_char c) ≡ (if is_upper (code c) then code c + 32 else code c)
unfolding lower_char
code-lower_char (char n p) = code-translated n p (is_upper n) (scalar_lowered n)

lower_char_idem : (c : Char) → lower_char (lower_char c) ≡ lower_char c
lower_char_idem c =
    Char-path _ _ (ground (arith, code-lower_char c, code-lower_char (lower_char c)))

-- Lower case is a fixed point of `ascii_lower`.
pub ascii_lower_idem : (s : String) → ascii_lower (ascii_lower s) ≡ ascii_lower s
unfolding ascii_lower
ascii_lower_idem String.[] = refl
ascii_lower_idem (String.◌∷◌ c s) = cc (lower_char_idem c, ascii_lower_idem s)

abbrev letter : (n : ℕ) → IsScalar n → String → String
letter n p s = String.◌∷◌ (char n p) s

webex_letters :
    (s : String)
    → String.◌++◌ "webex:" s
      ≡ letter b'w' tt
          (letter b'e' tt (letter b'b' tt (letter b'e' tt (letter b'x' tt (letter b':' tt s)))))
webex_letters s =
    cons-append (char b'w' tt) "ebex:" s
    ∙ ap (letter b'w' tt) (
        cons-append (char b'e' tt) "bex:" s
        ∙ ap (letter b'e' tt) (
            cons-append (char b'b' tt) "ex:" s
            ∙ ap (letter b'b' tt) (
                cons-append (char b'e' tt) "x:" s
                ∙ ap (letter b'e' tt) (
                    cons-append (char b'x' tt) ":" s
                    ∙ ap (letter b'x' tt)
                        (cons-append (char b':' tt) "" s ∙ ap (letter b':' tt) (nil-append s))))))

partition-webex : (s : String) → partition (String.◌++◌ "webex:" s) ≡ ("webex", true, s)
unfolding partition
partition-webex s = ap partition (webex_letters s)

normalize_roster_id-webex :
    (strip : String → String) (s : String)
    → has_at s ≡ true
    → normalize_roster_id strip (String.◌++◌ "webex:" s)
      ≡ concat ("webex:" ∷ ascii_lower (strip s) ∷ [])
unfolding normalize_roster_id
normalize_roster_id-webex strip s e = rw (partition-webex s, normalized, e) refl

-- Two e-mail entries of the roster are one principal exactly if they differ, after stripping, in the
-- case of ASCII letters only.
pub normalize_roster_id_email :
    (strip : String → String) (a b : String)
    → has_at a ≡ true
    → has_at b ≡ true
    → (normalize_roster_id strip (String.◌++◌ "webex:" a)
        ≡ normalize_roster_id strip (String.◌++◌ "webex:" b))
      ↔ (ascii_lower (strip a) ≡ ascii_lower (strip b))
normalize_roster_id_email strip a b ha hb =
    rw (normalize_roster_id-webex strip a ha, normalize_roster_id-webex strip b hb)
      (
        λ e. let f = append_cancel_left "webex:" _ _ e in rw (append-nil, append-nil) at f,
        λ e. rw e refl,
      )
