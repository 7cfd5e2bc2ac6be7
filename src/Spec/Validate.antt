-- ===== src/Spec/Validate.antt =====
-- keep_spec/models.py: the validators of single sections.
use agent_keep.Base.{
  ℕ, String, Bool, true, false, not, ◌&&◌, ◌||◌, Option, none, some, List, [], ◌∷◌, map, Result, ok,
  err, leb, ◌==◌, is_empty, contains, codes, duplicates, if◌then◌else◌,
}
use agent_keep.Egress.Text.{Text, number_from}
use agent_keep.Egress.Match.{rpartition, chomp, is_port}
use agent_keep.Cron.Parse.{CronSyntaxError, CronFields, parse_cron}
use agent_keep.Gateway.Gate.{AllowlistEntry, GatewayAllowlist}
use agent_keep.Spec.Check.{Invalid, Verdict, refuse_if, ◌>>◌, each}
use agent_keep.Spec.Intake.{
  PersonaSource, Persona, Activation, message_trigger, schedule_trigger, event_trigger, Method,
  ChannelVerification, Channel, dev_http, discord, slack, webex, sms,
}
use agent_keep.Spec.Tools.{
  Selection, SkillPack, McpTransport, stdio, http, local, McpServer, ApprovalPolicy, Approval,
  Sandbox,
}

-- What `urlsplit` finds; `port` may raise.
pub record UrlParts : Type 0 where
  pub scheme : String
  pub username : Option String
  pub password : Option String
  pub hostname : Option String
  pub port : Option (Option ℕ)

abbrev pub is_some {ℓ} : {A : Type ℓ} → Option A → Bool
is_some none = false
is_some (some x) = true

abbrev pub is_both : PersonaSource → Bool
is_both PersonaSource.static = false
is_both PersonaSource.learned = false
is_both PersonaSource.both = true

-- `_precedence_iff_both`
unfoldable pub precedence_iff_both : Persona → Verdict
precedence_iff_both p =
    refuse_if (is_both p.source && not (is_some p.precedence)) Invalid.precedence_required
    >> refuse_if (not (is_both p.source) && is_some p.precedence) Invalid.precedence_unexpected

abbrev pub syntax_verdict : Result CronSyntaxError CronFields → Verdict
syntax_verdict (ok fields) = ok tt
syntax_verdict (err e) = err (Invalid.cron_syntax e)

-- `_cron_is_real`
unfoldable pub cron_is_real : Activation → Verdict
cron_is_real message_trigger = ok tt
cron_is_real (schedule_trigger t) = syntax_verdict (parse_cron (codes t.cron))
cron_is_real (event_trigger t) = ok tt

abbrev pub is_verified : Method → Bool
is_verified Method.signature = true
is_verified Method.token = true
is_verified Method.unverified = false

-- `_secret_iff_verified`
unfoldable pub secret_iff_verified : ChannelVerification → Verdict
secret_iff_verified v =
    refuse_if (is_verified v.method && not (is_some v.secret_env))
      (Invalid.secret_required v.method)
    >> refuse_if (not (is_verified v.method) && is_some v.secret_env) Invalid.secret_unexpected

unfoldable pub channel_verdict : Channel → Verdict
channel_verdict (dev_http c) = ok tt
channel_verdict (discord c) = secret_iff_verified c.verification
channel_verdict (slack c) = secret_iff_verified c.verification
channel_verdict (webex c) = secret_iff_verified c.verification
channel_verdict (sms c) = secret_iff_verified c.verification

-- The loop of `_no_duplicate_roster_entries`, from the ids seen so far.
unfoldable pub unseen_entries : List String → List AllowlistEntry → Verdict
unseen_entries seen [] = ok tt
unseen_entries seen (entry ∷ entries) =
    let rest = unseen_entries (entry.id ∷ seen) entries in
    if contains seen entry.id then err (Invalid.duplicate_principal entry.id) else rest

unfoldable pub no_duplicate_roster_entries : GatewayAllowlist → Verdict
no_duplicate_roster_entries allowlist = unseen_entries [] allowlist.roster

abbrev pub is_keyword : Selection → Bool
is_keyword Selection.always = false
is_keyword Selection.keyword = true
is_keyword Selection.model_driven = false

-- `_keywords_iff_keyword_selection`
unfoldable pub keywords_iff_keyword_selection : SkillPack → Verdict
keywords_iff_keyword_selection pack =
    refuse_if (is_keyword pack.selection && is_empty pack.keywords)
      (Invalid.keywords_required pack.name)
    >> refuse_if (not (is_keyword pack.selection) && not (is_empty pack.keywords))
        (Invalid.keywords_unexpected pack.name)

abbrev pub credentials_verdict : String → Option UrlParts → Verdict
credentials_verdict url none = err (Invalid.malformed_url url)
credentials_verdict url (some parts) =
    refuse_if (is_some parts.username || is_some parts.password) (Invalid.embedded_credentials url)

-- `_no_embedded_credentials`; `urlsplit` gives `none` where it raises.
unfoldable pub no_embedded_credentials : (String → Option UrlParts) → McpTransport → Verdict
no_embedded_credentials urlsplit (stdio t) = ok tt
no_embedded_credentials urlsplit (http t) = credentials_verdict t.url (urlsplit t.url)
no_embedded_credentials urlsplit local = ok tt

abbrev pub grant_names : McpServer → List String
grant_names server = map (λ g. g.name) server.allow

-- `_grant_names_are_unique`
unfoldable pub grant_names_are_unique : McpServer → Verdict
grant_names_are_unique server =
    refuse_if (not (is_empty (duplicates (grant_names server))))
      (Invalid.duplicate_grants server.name (duplicates (grant_names server)))

abbrev pub confirms_rest : ApprovalPolicy → Bool
confirms_rest ApprovalPolicy.autonomous = false
confirms_rest ApprovalPolicy.allowlist_confirm_rest = true
confirms_rest ApprovalPolicy.everything = false

-- `_auto_approve_iff_allowlist_policy`
unfoldable pub auto_approve_iff_allowlist_policy : Approval → Verdict
auto_approve_iff_allowlist_policy approval =
    refuse_if (not (confirms_rest approval.policy) && not (is_empty approval.auto_approve))
      (Invalid.auto_approve_unexpected approval.policy)

abbrev pub is_alnum : ℕ → Bool
is_alnum c = leb b'0' c && leb c b'9' || leb b'A' c && leb c b'Z' || leb b'a' c && leb c b'z'

-- `[A-Za-z0-9.-]*(:[0-9]{1,5})?`
unfoldable pub ends_host : Text → Bool
ends_host [] = true
ends_host (c ∷ s) =
    let rest = ends_host s in
    if is_alnum c || c == b'.' || c == b'-' then rest else c == b':' && is_port s

abbrev pub starts_host : Text → Bool
starts_host [] = false
starts_host (c ∷ s) = is_alnum c && ends_host s

abbrev pub without_wildcard : Text → Text
without_wildcard [] = []
without_wildcard (c ∷ []) = c ∷ []
without_wildcard (c ∷ d ∷ s) = if c == b'*' && d == b'.' then s else c ∷ d ∷ s

-- `re.match(EGRESS_HOST, host)`; `$` also matches before a line feed that ends the text.
unfoldable pub is_egress_host : Text → Bool
is_egress_host host = starts_host (without_wildcard (chomp host))

abbrev pub port_in_range : Option (Text × Text) → Bool
port_in_range none = true
port_in_range (some (before, after)) =
    leb 1 (number_from 0 (chomp after)) && leb (number_from 0 (chomp after)) 65535

-- One turn of the loop of `_egress_hosts_wellformed`, and `_base_host_wellformed` of both providers.
unfoldable pub host_wellformed : String → Verdict
host_wellformed host =
    refuse_if (not (is_egress_host (codes host))) (Invalid.malformed_host host)
    >> refuse_if (not (port_in_range (rpartition (codes host)))) (Invalid.port_out_of_range host)

-- `_egress_hosts_wellformed`
unfoldable pub egress_hosts_wellformed : Sandbox → Verdict
egress_hosts_wellformed sandbox = each host_wellformed sandbox.egress
