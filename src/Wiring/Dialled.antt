-- ===== src/Wiring/Dialled.antt =====
-- The guard's reading of base hosts and URLs, against what their clients dial.
use agent_keep.Base.{ℕ, String, Option, [], ◌∷◌, ◌++◌, ◌≡◌, inl, inr, refl, codes, arith}
use agent_keep.Egress.Text.{Text, lower, number_from}
use agent_keep.Egress.Match.{rpartition}
use agent_keep.Egress.Rules.{
  NoColon, rpartition-none, rpartition-append, digits-NoColon, chomp-digits,
}
use agent_keep.Wiring.Tables.{
  webex_api_host, webex_api_port, slack_api_host, slack_api_port, anthropic_api_host,
  anthropic_api_port,
}
use agent_keep.Wiring.Targets.{base_address, port_or_default}
use agent_keep.Wiring.Contacts.{Address, NamesPort, Dials, UrlPort}

-- `config.baseHost`, with the provider's default port.
abbrev pub address_of : ℕ → String → Address
address_of default base_host = base_address default (codes base_host) (rpartition (codes base_host))

NamesPort-address_of :
    (default : ℕ) (base_host : String) (host digits : Text)
    → NamesPort base_host host digits
    → address_of default base_host ≡ (lower host, number_from 0 digits)
NamesPort-address_of default base_host host digits (e, some_host, d) =
    rw
      (
        e,
        rpartition-append host digits (digits-NoColon digits d),
        base_address,
        some_host,
        chomp-digits digits d,
      )
      refl

pub Dials-address_of :
    (default : ℕ) (base_host : String) (a : Address)
    → Dials default base_host a
    → address_of default base_host ≡ a
Dials-address_of default base_host (h, p) (inl (host, digits, n, e, f)) =
    rw (NamesPort-address_of default base_host host digits n, e, f) refl
Dials-address_of default base_host (h, p) (inr (bare, e, f)) =
    rw (rpartition-none (codes base_host) bare, base_address, e, f) refl

-- A base host that names its port is dialled there, whatever the default.
pub NamesPort-Dials :
    (default other : ℕ) (base_host : String) (a : Address) (host digits : Text)
    → NamesPort base_host host digits
    → Dials other base_host a
    → address_of default base_host ≡ a
NamesPort-Dials default other base_host (h, p) host digits n (inl (host', digits', n', e, f)) =
    rw (NamesPort-address_of default base_host host' digits' n', e, f) refl
NamesPort-Dials default other base_host (h, p) host digits n (inr (bare, e, f)) =
    absurd (NoColon-apart host digits (rw (n.0) at bare))
  where
    NoColon-apart : (s t : Text) → NoColon (s ++ b':' ∷ t) → ⊥
    NoColon-apart [] t h = h.0 refl
    NoColon-apart (c ∷ s) t h = NoColon-apart s t h.1

pub UrlPort-default :
    (explicit : Option ℕ) (scheme : String) (port : ℕ)
    → UrlPort explicit scheme port
    → port_or_default explicit scheme ≡ port
UrlPort-default explicit scheme port (inl (n, e, f)) = rw (e, port_or_default) (ground (arith, f))
UrlPort-default explicit scheme port (inr (inl (e, s, f))) = rw (e, s, port_or_default) f
UrlPort-default explicit scheme port (inr (inr (e, s, f))) = rw (e, s, port_or_default) f

-- The platforms' addresses are those of the guard's constants.
pub webex_address : ◌≡◌ {A = Address} (webex_api_host, webex_api_port) (codes "webexapis.com", 443)
unfolding codes webex_api_host
webex_address = refl

pub slack_address : ◌≡◌ {A = Address} (slack_api_host, slack_api_port) (codes "slack.com", 443)
unfolding codes slack_api_host
slack_address = refl

pub anthropic_address :
    ◌≡◌ {A = Address} (anthropic_api_host, anthropic_api_port) (codes "api.anthropic.com", 443)
unfolding codes anthropic_api_host
anthropic_address = refl
