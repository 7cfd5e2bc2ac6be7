-- ===== src/Spec/Tests.antt =====
-- The validators on a reference spec, and on specs that break one rule each.
use agent_keep.Base.{
  ℕ, String, All, List, map, none, [], ◌∷◌, ◌++◌, ◌≡◌, refl, ok, err, codes, count, duplicates,
  as_set, repeated, sort_names, insert_name, contains,
}
use agent_keep.Egress.Text.{all_digits, number_from}
use agent_keep.Egress.Match.{rpartition, chomp}
use agent_keep.Spec.Intake.{PersonaSource}
use agent_keep.Spec.Providers.{Provider}
use agent_keep.Spec.Check.{Site, UnpricedPath, Invalid, refuse_if, ◌>>◌, each, optional}
use agent_keep.Spec.Sample.{noc_persona, noc_spec, noc_models, noc_tools, noc_urlsplit}
use agent_keep.Spec.Validate.{
  precedence_iff_both, cron_is_real, channel_verdict, secret_iff_verified,
  no_duplicate_roster_entries, unseen_entries, no_embedded_credentials, grant_names_are_unique,
  auto_approve_iff_allowlist_policy, ends_host, is_egress_host, host_wellformed,
  egress_hosts_wellformed,
}
use agent_keep.Spec.Priced.{
  without_name, both_rates_present, anthropic_verdict, check_provider_config, configs_verdict,
  tier_verdict, config_matches_provider, unpriced_at, unpriced_tiers, unpriced,
  usd_budget_requires_pricing, models_verdict,
}
use agent_keep.Spec.Accepted.{
  duplicate_servers, tool_server_names_are_unique, declared, undeclared,
  auto_approve_names_declared_grants, triggers_verdict, server_verdict, validate,
}
use agent_keep.Executor.Types.{GrantedTool, returned}
use agent_keep.Executor.Calls.{register}
use agent_keep.Spec.Qualified.{matches_kebab, IsKebab, register-declared}
use agent_keep.Spec.Consistent.{IsConsistent, validate-IsConsistent}

noc_accepted : validate noc_urlsplit noc_spec ≡ ok tt
unfolding validate ◌>>◌ precedence_iff_both refuse_if optional triggers_verdict each cron_is_real
    channel_verdict secret_iff_verified no_duplicate_roster_entries unseen_entries contains
    server_verdict no_embedded_credentials grant_names_are_unique duplicates sort_names insert_name
    as_set codes count repeated rpartition chomp all_digits number_from
    auto_approve_names_declared_grants declared duplicate_servers tool_server_names_are_unique
    undeclared anthropic_verdict both_rates_present check_provider_config config_matches_provider
    configs_verdict models_verdict tier_verdict unpriced unpriced_at unpriced_tiers
    usd_budget_requires_pricing without_name auto_approve_iff_allowlist_policy
    egress_hosts_wellformed ends_host host_wellformed is_egress_host
noc_accepted = refl

-- The theorem at a reference spec.
validate-IsConsistent_example : IsConsistent noc_urlsplit noc_spec
validate-IsConsistent_example = (validate-IsConsistent noc_urlsplit noc_spec).0 noc_accepted

precedence_missing :
    precedence_iff_both (record noc_persona { source = PersonaSource.both })
    ≡ err Invalid.precedence_required
unfolding precedence_iff_both refuse_if ◌>>◌
precedence_missing = refl

-- A second `search_syslog` on one server, and a server listed twice.
servers_twice :
    tool_server_names_are_unique (noc_tools ++ noc_tools)
    ≡ err (Invalid.duplicate_servers ("observability" ∷ "device-inventory" ∷ "noc-paging" ∷ []))
unfolding tool_server_names_are_unique duplicate_servers contains refuse_if
servers_twice = refl

grant_undeclared :
    auto_approve_names_declared_grants noc_tools
      ("observability.query_alarms" ∷ "observability.delete" ∷ [])
    ≡ err (Invalid.undeclared_grants ("observability.delete" ∷ []))
unfolding auto_approve_names_declared_grants undeclared declared contains refuse_if
grant_undeclared = refl

-- The static provider has no price that could be declared.
static_unpriced :
    usd_budget_requires_pricing (record noc_models { provider = Provider.static })
    ≡ err (Invalid.unpriced_paths (UnpricedPath.static_path Site.default_site ∷ []))
unfolding usd_budget_requires_pricing unpriced unpriced_at unpriced_tiers refuse_if
static_unpriced = refl

config_unselected :
    config_matches_provider (record noc_models { provider = Provider.openai })
    ≡ err (Invalid.config_required Site.default_site "openai")
unfolding config_matches_provider check_provider_config contains refuse_if ◌>>◌
config_unselected = refl

port_too_large :
    host_wellformed "redis.noc.internal:65536"
    ≡ err (Invalid.port_out_of_range "redis.noc.internal:65536")
unfolding host_wellformed is_egress_host ends_host chomp rpartition all_digits number_from codes
    refuse_if ◌>>◌
port_too_large = refl

host_with_path :
    host_wellformed "redis.noc.internal/x" ≡ err (Invalid.malformed_host "redis.noc.internal/x")
unfolding host_wellformed is_egress_host ends_host chomp all_digits codes refuse_if ◌>>◌
host_with_path = refl

names_twice : duplicates ("b" ∷ "a" ∷ "b" ∷ "a" ∷ "c" ∷ []) ≡ "a" ∷ "b" ∷ []
unfolding duplicates repeated count as_set contains sort_names insert_name
names_twice = refl

-- A tool under a name, which does nothing.
abbrev idle : String → GrantedTool ℕ ℕ
idle name = record {
  name = name;
  scope = "read";
  description = "";
  parameters = [];
  constraints = none;
  run = λ arguments w. (returned "", w);
}

abbrev noc_grants : List String
noc_grants =
    "observability.query_alarms" ∷ "observability.query_metrics" ∷ "observability.search_syslog"
    ∷ "device-inventory.get_device" ∷ "device-inventory.search_devices" ∷ "noc-paging.page_room"
    ∷ []

noc_tools-IsKebab : All IsKebab noc_tools
unfolding matches_kebab codes
noc_tools-IsKebab = (refl, (refl, (refl, tt)))

noc_declared : noc_grants ≡ declared noc_tools
unfolding declared
noc_declared = refl

-- The theorem at the reference spec.
register-declared_example :
    register [] (map idle noc_grants)
    ≡ ok (map (λ (t : GrantedTool ℕ ℕ). (t.name, t)) (map idle noc_grants))
register-declared_example =
    register-declared noc_urlsplit noc_spec (map idle noc_grants) noc_accepted noc_tools-IsKebab
      noc_declared
