-- ===== src/Spec/Sound.antt =====
-- What the validators of single sections accept.
use agent_keep.Base.{
  String, Bool, true, false, not, ◌&&◌, ◌||◌, Option, none, some, List, [], ◌∷◌, ◌≡◌, ◌≢◌, ◌↔◌, ◌⊎◌,
  inl, inr, refl, map, Result, ok, err, arith, is_empty, contains, codes, duplicates, Unique, Fresh,
  Fresh-iff, All, Bool-cases, contains_iff, is_empty-duplicates_iff,
}
use agent_keep.Cron.Parse.{CronFields, CronSyntaxError, parse_cron}
use agent_keep.Egress.Match.{rpartition}
use agent_keep.Gateway.Gate.{AllowlistEntry, GatewayAllowlist}
use agent_keep.Spec.Check.{
  Invalid, Accepts, refuse_if, ◌>>◌, refuse_if_iff, passes, each_iff, both_iff,
}
use agent_keep.Spec.Intake.{
  PersonaSource, Persona, Activation, message_trigger, schedule_trigger, event_trigger, Method,
  ChannelVerification, Channel, dev_http, discord, slack, webex, sms,
}
use agent_keep.Spec.Tools.{
  Selection, SkillPack, McpTransport, stdio, http, local, McpServer, ApprovalPolicy, Approval,
  Sandbox,
}
use agent_keep.Spec.Validate.{
  UrlParts, is_some, is_both, precedence_iff_both, syntax_verdict, cron_is_real, is_verified,
  secret_iff_verified, channel_verdict, unseen_entries, no_duplicate_roster_entries, is_keyword,
  keywords_iff_keyword_selection, credentials_verdict, no_embedded_credentials, grant_names,
  grant_names_are_unique, confirms_rest, auto_approve_iff_allowlist_policy, is_egress_host,
  port_in_range, host_wellformed, egress_hosts_wellformed,
}

-- A precedence exactly where both personas are used.
abbrev pub IsPersona : Persona → Type 0
IsPersona p = (p.source ≡ PersonaSource.both) ↔ (p.precedence ≢ none)

-- A secret exactly where deliveries are verified.
abbrev pub IsVerification : ChannelVerification → Type 0
IsVerification v = (v.method ≢ Method.unverified) ↔ (v.secret_env ≢ none)

abbrev pub IsChannel : Channel → Type 0
IsChannel (dev_http c) = Unit
IsChannel (discord c) = IsVerification c.verification
IsChannel (slack c) = IsVerification c.verification
IsChannel (webex c) = IsVerification c.verification
IsChannel (sms c) = IsVerification c.verification

-- A schedule that can run.
abbrev pub IsActivation : Activation → Type 0
IsActivation message_trigger = Unit
IsActivation (schedule_trigger t) = (fields : CronFields) × (parse_cron (codes t.cron) ≡ ok fields)
IsActivation (event_trigger t) = Unit

-- Keywords exactly where they select.
abbrev pub IsSkillPack : SkillPack → Type 0
IsSkillPack p = (p.selection ≡ Selection.keyword) ↔ (p.keywords ≢ [])

-- A URL that can be read, without a user or a password.
abbrev pub IsTransport : (String → Option UrlParts) → McpTransport → Type 0
IsTransport urlsplit (stdio t) = Unit
IsTransport urlsplit (http t) =
    (parts : UrlParts) × (urlsplit t.url ≡ some parts)
    × (parts.username ≡ none)
    × (parts.password ≡ none)
IsTransport urlsplit local = Unit

abbrev pub IsApproval : Approval → Type 0
IsApproval a = (a.policy ≡ ApprovalPolicy.allowlist_confirm_rest) ⊎ (a.auto_approve ≡ [])

abbrev pub IsEntry : String → Type 0
IsEntry host =
    (is_egress_host (codes host) ≡ true) × (port_in_range (rpartition (codes host)) ≡ true)

-- Two flags that have to agree, each a test of a statement.
agree_iff :
    (a b : Bool) (e f : Invalid) {P Q : Type 0}
    → ((a ≡ true) ↔ P)
    → ((b ≡ true) ↔ Q)
    → Accepts (refuse_if (a && not b) e >> refuse_if (not a && b) f) ↔ (P ↔ Q)
unfolding refuse_if ◌>>◌
agree_iff true true e f p q = (λ h. (λ x. q.0 refl, λ y. p.0 refl), λ h. refl)
agree_iff true false e f p q = (λ h. absurd (cc h), λ h. absurd (cc (q.1 (h.0 (p.0 refl)))))
agree_iff false true e f p q = (λ h. absurd (cc h), λ h. absurd (cc (p.1 (h.1 (q.0 refl)))))
agree_iff false false e f p q =
    (λ h. (λ x. absurd (cc (p.1 x)), λ y. absurd (cc (q.1 y))), λ h. refl)

is_some_iff {ℓ} : {A : Type ℓ} (o : Option A) → (is_some o ≡ true) ↔ (o ≢ none)
is_some_iff none = (λ h. cc, λ n. absurd (n refl))
is_some_iff (some x) = (λ h q. cc, λ n. refl)

is_both_iff : (s : PersonaSource) → (is_both s ≡ true) ↔ (s ≡ PersonaSource.both)
is_both_iff PersonaSource.static = (λ h. cc, λ h. cc)
is_both_iff PersonaSource.learned = (λ h. cc, λ h. cc)
is_both_iff PersonaSource.both = (λ h. refl, λ h. refl)

is_verified_iff : (m : Method) → (is_verified m ≡ true) ↔ (m ≢ Method.unverified)
is_verified_iff Method.signature = (λ h q. cc, λ h. refl)
is_verified_iff Method.token = (λ h q. cc, λ h. refl)
is_verified_iff Method.unverified = (λ h. cc, λ n. absurd (n refl))

is_keyword_iff : (s : Selection) → (is_keyword s ≡ true) ↔ (s ≡ Selection.keyword)
is_keyword_iff Selection.always = (λ h. cc, λ h. cc)
is_keyword_iff Selection.keyword = (λ h. refl, λ h. refl)
is_keyword_iff Selection.model_driven = (λ h. cc, λ h. cc)

not_empty_iff : (xs : List String) → (not (is_empty xs) ≡ true) ↔ (xs ≢ [])
not_empty_iff [] = (λ h. cc, λ n. absurd (n refl))
not_empty_iff (x ∷ xs) = (λ h q. cc, λ n. refl)

pub precedence_iff_both_iff : (p : Persona) → Accepts (precedence_iff_both p) ↔ IsPersona p
unfolding precedence_iff_both
precedence_iff_both_iff p =
    agree_iff (is_both p.source) (is_some p.precedence) _ _ (is_both_iff p.source)
      (is_some_iff p.precedence)

secret_iff_verified_iff :
    (v : ChannelVerification) → Accepts (secret_iff_verified v) ↔ IsVerification v
unfolding secret_iff_verified
secret_iff_verified_iff v =
    agree_iff (is_verified v.method) (is_some v.secret_env) _ _ (is_verified_iff v.method)
      (is_some_iff v.secret_env)

pub keywords_iff_keyword_selection_iff :
    (p : SkillPack) → Accepts (keywords_iff_keyword_selection p) ↔ IsSkillPack p
unfolding keywords_iff_keyword_selection
keywords_iff_keyword_selection_iff p =
    let flag : (is_keyword p.selection && is_empty p.keywords)
        ≡ (is_keyword p.selection && not (not (is_empty p.keywords))) =
      ground arith in
    rw flag (
      agree_iff (is_keyword p.selection) (not (is_empty p.keywords)) _ _
        (is_keyword_iff p.selection) (not_empty_iff p.keywords))

pub channel_verdict_iff : (c : Channel) → Accepts (channel_verdict c) ↔ IsChannel c
unfolding channel_verdict
channel_verdict_iff (dev_http c) = (λ h. tt, λ h. refl)
channel_verdict_iff (discord c) = secret_iff_verified_iff c.verification
channel_verdict_iff (slack c) = secret_iff_verified_iff c.verification
channel_verdict_iff (webex c) = secret_iff_verified_iff c.verification
channel_verdict_iff (sms c) = secret_iff_verified_iff c.verification

syntax_verdict_iff :
    (r : Result CronSyntaxError CronFields)
    → Accepts (syntax_verdict r) ↔ ((fields : CronFields) × (r ≡ ok fields))
syntax_verdict_iff (ok fields) = (λ h. (fields, refl), λ h. refl)
syntax_verdict_iff (err e) = (λ h. absurd (cc h), λ (fields, q). absurd (cc q))

pub cron_is_real_iff : (a : Activation) → Accepts (cron_is_real a) ↔ IsActivation a
unfolding cron_is_real
cron_is_real_iff message_trigger = (λ h. tt, λ h. refl)
cron_is_real_iff (schedule_trigger t) = syntax_verdict_iff (parse_cron (codes t.cron))
cron_is_real_iff (event_trigger t) = (λ h. tt, λ h. refl)

credentials_verdict_iff :
    (url : String) (o : Option UrlParts)
    → Accepts (credentials_verdict url o)
      ↔ ((parts : UrlParts) × (o ≡ some parts) × (parts.username ≡ none) × (parts.password ≡ none))
credentials_verdict_iff url none = (λ h. absurd (cc h), λ (parts, q, u, w). absurd (cc q))
credentials_verdict_iff url (some parts) =
    let b = refuse_if_iff (is_some parts.username || is_some parts.password) _ in
    (
      λ h. let e = b.0 h in (parts, refl, no_user parts e, no_password parts e),
      λ (p, q, u, w). b.1 (ground arith),
    )
  where
    no_user :
        (p : UrlParts) → (is_some p.username || is_some p.password) ≡ false → p.username ≡ none
    no_user p e = ground arith

    no_password :
        (p : UrlParts) → (is_some p.username || is_some p.password) ≡ false → p.password ≡ none
    no_password p e = ground arith

pub no_embedded_credentials_iff :
    (urlsplit : String → Option UrlParts) (t : McpTransport)
    → Accepts (no_embedded_credentials urlsplit t) ↔ IsTransport urlsplit t
unfolding no_embedded_credentials
no_embedded_credentials_iff urlsplit (stdio t) = (λ h. tt, λ h. refl)
no_embedded_credentials_iff urlsplit (http t) = credentials_verdict_iff t.url (urlsplit t.url)
no_embedded_credentials_iff urlsplit local = (λ h. tt, λ h. refl)

-- No error about a list of duplicates.
pub no_duplicates_iff :
    (names : List String) (e : Invalid)
    → Accepts (refuse_if (not (is_empty (duplicates names))) e) ↔ Unique names
no_duplicates_iff names e =
    let b = refuse_if_iff (not (is_empty (duplicates names))) e in
    let d = is_empty-duplicates_iff names in
    (λ h. d.0 (ground (arith, b.0 h)), λ u. b.1 (ground (arith, d.1 u)))

pub grant_names_are_unique_iff :
    (server : McpServer) → Accepts (grant_names_are_unique server) ↔ Unique (grant_names server)
unfolding grant_names_are_unique
grant_names_are_unique_iff server = no_duplicates_iff (grant_names server) _

abbrev pub ids : List AllowlistEntry → List String
ids entries = map (λ e. e.id) entries

unseen_entries-Fresh :
    (seen : List String) (entries : List AllowlistEntry)
    → Accepts (unseen_entries seen entries) ↔ Fresh seen (ids entries)
unfolding unseen_entries
unseen_entries-Fresh seen [] = (λ h. tt, λ h. refl)
unseen_entries-Fresh seen (entry ∷ entries) =
    let ih = unseen_entries-Fresh (entry.id ∷ seen) entries in
    let c = contains_iff seen entry.id in
    elim (Bool-cases (contains seen entry.id)) [
      | inl y ↦ rw y (λ h. absurd (cc h), λ h. absurd (h.0 (c.0 y)))
      | inr n ↦ rw n (λ h. (λ i. absurd (cc (n, c.1 i)), ih.0 h), λ h. ih.1 h.1)
    ]

pub no_duplicate_roster_entries_iff :
    (a : GatewayAllowlist) → Accepts (no_duplicate_roster_entries a) ↔ Unique (ids a.roster)
unfolding no_duplicate_roster_entries
no_duplicate_roster_entries_iff a =
    let u = unseen_entries-Fresh [] a.roster in
    let f = Fresh-iff [] (ids a.roster) in (λ h. (f.0 (u.0 h)).0, λ h. u.1 (f.1 (h, λ n i s. s)))

pub auto_approve_iff_allowlist_policy_iff :
    (a : Approval) → Accepts (auto_approve_iff_allowlist_policy a) ↔ IsApproval a
unfolding auto_approve_iff_allowlist_policy
auto_approve_iff_allowlist_policy_iff a =
    let b = refuse_if_iff (not (confirms_rest a.policy) && not (is_empty a.auto_approve)) _ in
    (λ h. by_policy a.policy a.auto_approve (b.0 h), λ o. b.1 (back a.policy a.auto_approve o))
  where
    by_policy :
        (p : ApprovalPolicy) (xs : List String)
        → (not (confirms_rest p) && not (is_empty xs)) ≡ false
        → (p ≡ ApprovalPolicy.allowlist_confirm_rest) ⊎ (xs ≡ [])
    by_policy ApprovalPolicy.allowlist_confirm_rest xs e = inl refl
    by_policy ApprovalPolicy.autonomous [] e = inr refl
    by_policy ApprovalPolicy.autonomous (x ∷ xs) e = absurd (cc e)
    by_policy ApprovalPolicy.everything [] e = inr refl
    by_policy ApprovalPolicy.everything (x ∷ xs) e = absurd (cc e)

    back :
        (p : ApprovalPolicy) (xs : List String)
        → (p ≡ ApprovalPolicy.allowlist_confirm_rest) ⊎ (xs ≡ [])
        → (not (confirms_rest p) && not (is_empty xs)) ≡ false
    back p xs (inl e) = rw e refl
    back p xs (inr e) = rw e (ground arith)

pub host_wellformed_iff : (host : String) → Accepts (host_wellformed host) ↔ IsEntry host
unfolding host_wellformed
host_wellformed_iff host =
    both_iff _ _ (passes (is_egress_host (codes host)) _)
      (passes (port_in_range (rpartition (codes host))) _)

pub egress_hosts_wellformed_iff :
    (s : Sandbox) → Accepts (egress_hosts_wellformed s) ↔ All IsEntry s.egress
unfolding egress_hosts_wellformed
egress_hosts_wellformed_iff s = each_iff IsEntry host_wellformed host_wellformed_iff s.egress
