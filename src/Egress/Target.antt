-- ===== src/Egress/Target.antt =====
-- Which requests `_parse_request_head` of keep_egress/proxy.py lets through to the enforcement, and
-- which header lines `rewritten_head` sends on.
use agent_keep.Base.{ℕ, ◌≤◌, false, ◌≡◌, Option, some, List, [], ◌∷◌, is_empty, In, ◌↔◌, ◌++◌}
use agent_keep.Egress.Text.{Text, lower}
use agent_keep.Egress.HeadText.{hop_by_hop, is_one_of, join_lines, connection_close, crlf}
use agent_keep.Egress.Head.{
  UrlSplit, Head, Parsed, malformed, raised, parsed, header_name, rewritten_head,
}

-- A target that the enforcement can compare with the allowlist.
abbrev pub IsTarget : Head → Type 0
IsTarget h = (1 ≤ h.port) × (h.port ≤ 65535) × (is_empty h.host ≡ false) × (lower h.host ≡ h.host)

abbrev pub OnParsed : (Head → Type 0) → Parsed → Type 0
OnParsed P (parsed h) = P h
OnParsed P malformed = Unit
OnParsed P raised = Unit

-- What `urlsplit` promises of a port: a larger one raises.
abbrev pub HasPorts : (Text → Option UrlSplit) → Type 0
HasPorts urlsplit =
    (t : Text) (u : UrlSplit) → urlsplit t ≡ some u → (n : ℕ) → u.port ≡ some (some n) → n ≤ 65535

-- The head that is sent on: the request line in origin form, exactly the header lines that are not of a
-- hop-by-hop header (and so none with the client's credentials for the proxy), and a last line.
abbrev pub SendsOn : Head → Type 0
SendsOn h =
    (sent : List Text) × (rewritten_head h
      ≡ join_lines
          ((h.method ++ b' ' ∷ h.origin_form ++ b' ' ∷ h.version) ∷ sent ++ connection_close ∷ [])
        ++ crlf
        ++ crlf)
    × ((l : Text)
        → In l sent ↔ (In l h.header_lines × (is_one_of hop_by_hop (header_name l) ≡ false)))
