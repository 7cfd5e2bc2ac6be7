-- ===== src/Egress/HeadTests.antt =====
-- Request heads: a tunnel, and a method with a line feed behind it, which the pattern lets through.
use agent_keep.Base.{◌≡◌, refl, Option, none, some, [], ◌∷◌, ◌++◌}
use agent_keep.Egress.Text.{Text, same_text, lower, number_from, all_digits}
use agent_keep.Words.{split_on}
use agent_keep.Egress.Match.{rpartition, chomp}
use agent_keep.Egress.Proxy.{connect_kind, absolute_kind}
use agent_keep.Egress.HeadText.{
  all_alpha, all_host, split_lines, take, is_ascii, starts_with, has_bracket,
}
use agent_keep.Egress.Head.{UrlSplit, parsed, parse_request_head}

abbrev crlf_crlf : Text
crlf_crlf = 0x0D ∷ 0x0A ∷ 0x0D ∷ 0x0A ∷ []

-- `http://a/`
abbrev url : Text
url = b'h' ∷ b't' ∷ b't' ∷ b'p' ∷ b':' ∷ b'/' ∷ b'/' ∷ b'a' ∷ b'/' ∷ []

abbrev version : Text
version = b'H' ∷ b'T' ∷ b'T' ∷ b'P' ∷ b'/' ∷ b'1' ∷ []

abbrev the_url : UrlSplit
the_url = record {
  scheme = b'h' ∷ b't' ∷ b't' ∷ b'p' ∷ [];
  hostname = some (b'a' ∷ []);
  port = some none;
  path = b'/' ∷ [];
  query = [];
}

abbrev urlsplit : Text → Option UrlSplit
urlsplit t = some the_url

abbrev tunnel : Text
tunnel =
    (b'C' ∷ b'O' ∷ b'N' ∷ b'N' ∷ b'E' ∷ b'C' ∷ b'T' ∷ b' ' ∷ b'A' ∷ b':' ∷ b'4' ∷ b'4' ∷ b'3' ∷ b' '
      ∷ version)
    ++ crlf_crlf

tunnel_parsed :
    parse_request_head urlsplit tunnel
    ≡ parsed (record {
      kind = connect_kind;
      host = b'a' ∷ [];
      port = 443;
      method = [];
      origin_form = [];
      version = [];
      header_lines = [];
    })
unfolding parse_request_head split_lines take split_on is_ascii starts_with all_alpha all_host
    rpartition chomp same_text lower number_from all_digits
tunnel_parsed = refl

line_feed_method :
    parse_request_head urlsplit
      ((b'G' ∷ b'E' ∷ b'T' ∷ 0x0A ∷ b' ' ∷ url) ++ b' ' ∷ version ++ crlf_crlf)
    ≡ parsed (record {
      kind = absolute_kind;
      host = b'a' ∷ [];
      port = 80;
      method = b'G' ∷ b'E' ∷ b'T' ∷ 0x0A ∷ [];
      origin_form = b'/' ∷ [];
      version = version;
      header_lines = [];
    })
unfolding parse_request_head split_lines take split_on is_ascii starts_with all_alpha has_bracket
    chomp same_text lower
line_feed_method = refl

-- `GET http://a/ HTTP/1`, with the lines `Connection:x` and `A:b`
abbrev get : Text
get =
    ((b'G' ∷ b'E' ∷ b'T' ∷ b' ' ∷ url) ++ b' ' ∷ version)
    ++ (0x0D ∷ 0x0A ∷ b'C' ∷ b'o' ∷ b'n' ∷ b'n' ∷ b'e' ∷ b'c' ∷ b't' ∷ b'i' ∷ b'o' ∷ b'n' ∷ b':'
        ∷ b'x' ∷ 0x0D ∷ 0x0A ∷ b'A' ∷ b':' ∷ b'b' ∷ [])
    ++ crlf_crlf
