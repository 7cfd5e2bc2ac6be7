-- ===== src/Egress/Tests.antt =====
-- One allowlist, and the theorems about the proxy at work on it.
use agent_keep.Base.{◌+◌, true, false, ◌≡◌, ◌↔◌, refl, none, List, [], ◌∷◌, ◌++◌, arith, length}
use agent_keep.Egress.Text.{Text, all_digits, number_from, lower}
use agent_keep.Egress.Match.{split_entry, host_covers, egress_entry_allows, match_allowlist}
use agent_keep.Egress.Rules.{subdomains, written, Names, egress_entry_allows_iff}
use agent_keep.Egress.Proxy.{
  ParsedRequest, received, connect_kind, Network, connected, Config, proxy_connection,
  closing_record, start, Event, arrive, finish, run,
}
use agent_keep.Egress.Slots.{connects, accepted, run-connects}

-- `b.c`, `a.b.c`, and `*.b.c:443`
abbrev domain : Text
domain = b'b' ∷ b'.' ∷ b'c' ∷ []

abbrev below : Text
below = b'a' ∷ b'.' ∷ domain

abbrev port_digits : Text
port_digits = b'4' ∷ b'4' ∷ b'3' ∷ []

abbrev entry : Text
entry = b'*' ∷ b'.' ∷ b'b' ∷ b'.' ∷ b'c' ∷ b':' ∷ port_digits

abbrev config : Config
config = record {
  allowlist = entry ∷ [];
  agent = record { slug = "scribe"; spec_version = "1" };
  max_connections = 1;
}

abbrev head : ParsedRequest
head = record { kind = connect_kind; host = below; port = 443; head_length = 40 }

abbrev torn : Network
torn = record { upstream = connected; first_write = false; relayed_up = 0; relayed_down = 0 }

abbrev healthy : Network
healthy = record { upstream = connected; first_write = true; relayed_up = 5; relayed_down = 9 }

-- A write that raises once the target is connected.
broken_write :
    closing_record config "k2" (proxy_connection config "k1" (received head) torn).returned
    ≡ closing_record config "k2" none
unfolding proxy_connection match_allowlist egress_entry_allows split_entry host_covers lower
broken_write = refl

entry_allows_iff_example :
    ((egress_entry_allows (written (subdomains domain)) below 443 ≡ true)
      ↔ Names (subdomains domain) below)
    × ((egress_entry_allows (written (subdomains domain) ++ b':' ∷ port_digits) below 443 ≡ true)
        ↔ ((number_from 0 port_digits ≡ 443) × Names (subdomains domain) below))
unfolding all_digits
entry_allows_iff_example =
    egress_entry_allows_iff (subdomains domain) port_digits below 443
      (omega arith, (omega arith, (omega arith, tt))) refl

-- A second client comes while the only slot is taken.
abbrev events : List Event
events = arrive "k1" ∷ arrive "k2" ∷ finish "k1" "k3" (received head) healthy true ∷ []

connects_example :
    let q = run (start config) events in
    connects q.sink + length q.tasks
    ≡ connects (start config).sink + length (start config).tasks + accepted (start config) events
connects_example = run-connects (start config) events (tt, (tt, (refl, tt)))
