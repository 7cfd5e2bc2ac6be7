-- ===== src/Receiver/Tests.antt =====
-- A peer that sends lines, for the theorems about http_receiver.py.
use agent_keep.Base.{
  ℕ, ◌+◌, Bool, true, false, ◌≡◌, refl, sym, ap, ◌∙◌, List, [], ◌∷◌, ok, err, length, ◌==◌, ==_iff,
}
use agent_keep.Egress.Text.{Text}
use agent_keep.Receiver.Request.{
  StreamReader, LineRead, line, BodyRead, body, incomplete, default_limits, http_error, Request,
  content_length, parse_request_line, and_then, read_line, take_header, read_headers, read_body,
  parse_rest, parse,
}
use agent_keep.Receiver.Bounds.{IsHandled, IsBounded, IsExact, parse-IsHandled}
use agent_keep.Receiver.Connection.{Race, answered, serve, arrive, finish, fresh_receiver, run}
use agent_keep.Receiver.Ceiling.{IsWithin, IsGuarded, fresh-IsWithin, serve-IsGuarded}

abbrev next_line : List Text → List Text × LineRead
next_line [] = ([], line [])
next_line (l ∷ ls) = (ls, line l)

abbrev body_of : Bool → Text → List Text → List Text × BodyRead
body_of true l ls = (ls, body l)
body_of false l ls = (ls, incomplete)

abbrev next_body : ℕ → List Text → List Text × BodyRead
next_body n [] = ([], incomplete)
next_body n (l ∷ ls) = body_of (length l == n) l ls

abbrev lines : StreamReader (List Text)
lines = record { readline = next_line; readexactly = next_body }

abbrev body_or : List Text × BodyRead → Text
body_or (ls, body b) = b
body_or (ls, _) = []

abbrev is_body : List Text × BodyRead → Bool
is_body (ls, body b) = true
is_body (ls, _) = false

contradicts : ¬ (false ≡ true)
contradicts e = cc

incomplete_differs :
    {r s : List Text} {b : Text} → ◌≡◌ {A = List Text × BodyRead} (r, incomplete) (s, body b) → ⊥
incomplete_differs e = contradicts (ap is_body e)

body_of-exact :
    (n : ℕ) (exact : Bool) (l : Text) (ls s : List Text) (b : Text)
    → (exact ≡ true → length l ≡ n)
    → body_of exact l ls ≡ (s, body b)
    → length b ≡ n
body_of-exact n true l ls s b h e = ap (λ p. length (body_or p)) (sym e) ∙ h refl
body_of-exact n false l ls s b h e = absurd (incomplete_differs e)

lines-IsExact : IsExact lines
lines-IsExact n [] s b e = absurd (incomplete_differs e)
lines-IsExact n (l ∷ ls) s b e = body_of-exact n (length l == n) l ls s b (==_iff (length l) n).0 e

abbrev request_line : Text
request_line = b'P' ∷ 0x20 ∷ b'/' ∷ 0x20 ∷ b'H' ∷ 0x0D ∷ 0x0A ∷ []

-- `Content-Length: 2`
abbrev length_line : Text
length_line =
    b'C' ∷ b'o' ∷ b'n' ∷ b't' ∷ b'e' ∷ b'n' ∷ b't' ∷ b'-' ∷ b'L' ∷ b'e' ∷ b'n' ∷ b'g' ∷ b't' ∷ b'h'
    ∷ b':' ∷ 0x20 ∷ b'2' ∷ 0x0D ∷ 0x0A ∷ []

abbrev post : List Text
post = request_line ∷ length_line ∷ (0x0D ∷ 0x0A ∷ []) ∷ (b'{' ∷ b'}' ∷ []) ∷ []

posted :
    (parse lines default_limits post).1
    ≡ ok (record {
      method = b'P' ∷ [];
      path = b'/' ∷ [];
      headers =
          (
            b'c' ∷ b'o' ∷ b'n' ∷ b't' ∷ b'e' ∷ b'n' ∷ b't' ∷ b'-' ∷ b'l' ∷ b'e' ∷ b'n' ∷ b'g' ∷ b't'
                ∷ b'h' ∷ [],
            b'2' ∷ [],
          )
          ∷ [];
      raw_body = b'{' ∷ b'}' ∷ [];
    })
unfolding parse parse_rest read_headers take_header read_line read_body and_then parse_request_line
    content_length
posted = refl

malformed :
    (parse lines default_limits ((b'x' ∷ 0x0A ∷ []) ∷ [])).1
    ≡ err (http_error 400 "malformed request line")
unfolding parse parse_rest read_headers take_header read_line read_body and_then parse_request_line
    content_length
malformed = refl

abbrev counter : Request → ℕ → ℕ × Race ℕ
counter request w = (w + 1, answered 200 w)

parse-IsHandled_example : IsHandled (IsBounded default_limits) (parse lines default_limits post).1
parse-IsHandled_example = parse-IsHandled lines default_limits lines-IsExact post

serve-IsGuarded_example :
    IsGuarded lines default_limits counter 0
      (parse lines default_limits post).1
      (serve lines default_limits counter 0 post)
serve-IsGuarded_example = serve-IsGuarded lines default_limits counter 0 post lines-IsExact

fresh-IsWithin_example :
    IsWithin lines default_limits counter (
      run lines default_limits counter
        (fresh_receiver 0)
        (arrive 1 ∷ arrive 2 ∷ finish 1 post ∷ []))
fresh-IsWithin_example =
    fresh-IsWithin lines default_limits counter 0 (arrive 1 ∷ arrive 2 ∷ finish 1 post ∷ [])
