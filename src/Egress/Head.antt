-- ===== src/Egress/Head.antt =====
-- `_ParsedRequest` and `_parse_request_head` of keep_egress/proxy.py. `urlsplit` of Python's library is
-- a parameter, `none` where it raises; a request head is the bytes that were read.
use agent_keep.Base.{
  ℕ, suc, ◌-◌, ◌&&◌, ◌||◌, Option, none, some, List, [], ◌∷◌, ◌++◌, length, is_empty, leb,
  if◌then◌else◌,
}
use agent_keep.Words.{split_on, partition_on}
use agent_keep.Egress.Text.{Text, same_text, lower, number_from}
use agent_keep.Egress.Match.{rpartition, chomp, is_port}
use agent_keep.Egress.Proxy.{
  Kind, connect_kind, absolute_kind, ParsedRequest, Received, unreadable, head_raised, received,
}
use agent_keep.Egress.HeadText.{
  is_method, is_host, split_lines, take, is_ascii, starts_with, http_slash, connect_name,
  http_prefix, https_name, https_prefix, has_bracket, hop_by_hop, is_one_of, lstrip, rstrip,
  connection_close, crlf, join_lines,
}

-- What `urlsplit` gives; its `port` may raise, too.
pub record UrlSplit : Type 0 where
  pub scheme : Text
  pub hostname : Option Text
  pub port : Option (Option ℕ)
  pub path : Text
  pub query : Text

pub record Head : Type 0 where
  pub kind : Kind
  pub host : Text
  pub port : ℕ
  pub method : Text
  pub origin_form : Text
  pub version : Text
  pub header_lines : List Text

-- A head is malformed, or a request, or the parser raises.
pub data Parsed : Type 0 where
  malformed raised : Parsed
  parsed : Head → Parsed

-- `_CONNECT_AUTHORITY` on a target, and the port's range.
abbrev pub connect_head : Option (Text × Text) → Parsed
connect_head none = malformed
connect_head (some (host, after)) =
    let port = number_from 0 (chomp after) in
    if (is_host host && is_port (chomp after)) && (leb 1 port && leb port 65535)
    then parsed (record {
      kind = connect_kind;
      host = lower host;
      port = port;
      method = [];
      origin_form = [];
      version = [];
      header_lines = [];
    })
    else malformed

abbrev pub host_or_empty : Option Text → Text
host_or_empty none = []
host_or_empty (some host) = host

-- `explicit_port or (443 if ... else 80)`
abbrev pub port_or_default : Option ℕ → Text → ℕ
port_or_default (some (suc n)) scheme = suc n
port_or_default _ scheme = if same_text (lower scheme) https_name then 443 else 80

abbrev pub origin_form_of : UrlSplit → Text
origin_form_of u =
    (if is_empty u.path then b'/' ∷ [] else u.path)
    ++ (if is_empty u.query then [] else b'?' ∷ u.query)

abbrev pub absolute_head : Text → Text → List Text → UrlSplit → Option (Option ℕ) → Parsed
absolute_head method version lines u none = malformed
absolute_head method version lines u (some explicit) =
    let host = lower (host_or_empty u.hostname) in
    if is_empty host || has_bracket host
    then malformed
    else parsed (record {
      kind = absolute_kind;
      host = host;
      port = port_or_default explicit u.scheme;
      method = method;
      origin_form = origin_form_of u;
      version = version;
      header_lines = lines;
    })

abbrev pub split_head : Text → Text → List Text → Option UrlSplit → Parsed
split_head method version lines none = raised
split_head method version lines (some u) = absolute_head method version lines u u.port

-- The header's name, as it is compared.
unfoldable pub header_name : Text → Text
header_name raw = lower (rstrip (lstrip (partition_on b':' [] raw).0))

unfoldable pub forwarded_lines : List Text → List Text
forwarded_lines [] = []
forwarded_lines (raw ∷ lines) =
    let rest = forwarded_lines lines in
    if is_one_of hop_by_hop (header_name raw) then rest else raw ∷ rest

abbrev pub rewritten_lines : Head → List Text
rewritten_lines h =
    (h.method ++ b' ' ∷ h.origin_form ++ b' ' ∷ h.version) ∷ forwarded_lines h.header_lines
    ++ connection_close ∷ []

unfoldable pub rewritten_head : Head → Text
rewritten_head h = join_lines (rewritten_lines h) ++ crlf ++ crlf

-- What the enforcement reads of a request.
abbrev pub as_request : Head → ParsedRequest
as_request h = record {
  kind = h.kind;
  host = h.host;
  port = h.port;
  head_length = length (rewritten_head h);
}

-- What `_proxy_connection` gets of a head that was read whole.
abbrev pub as_received : Parsed → Received
as_received malformed = unreadable
as_received raised = head_raised
as_received (parsed h) = received (as_request h)

module _ (urlsplit : Text → Option UrlSplit) where
  abbrev pub target_head : Text → Text → Text → List Text → Parsed
  target_head method raw_target version lines =
      if same_text (lower method) connect_name
      then connect_head (rpartition raw_target)
      else if starts_with http_prefix (lower raw_target)
          || starts_with https_prefix (lower raw_target)
      then split_head method version lines (urlsplit raw_target)
      else malformed

  abbrev pub parse_parts : List Text → List Text → Parsed
  parse_parts (method ∷ raw_target ∷ version ∷ []) lines =
      if (starts_with http_slash version && is_method method) && is_ascii raw_target
      then target_head method raw_target version lines
      else malformed
  parse_parts _ lines = malformed

  abbrev pub parse_lines : List Text → Parsed
  parse_lines [] = malformed
  parse_lines (first ∷ lines) = parse_parts (split_on b' ' [] first) lines

  unfoldable pub parse_request_head : Text → Parsed
  parse_request_head head = parse_lines (split_lines [] (take (length head - 4) head))
