-- ===== src/Wiring/Tests.antt =====
-- The guard and the selection on a reference spec, and on specs that the guard refuses.
use agent_keep.Base.{
  String, true, none, List, [], ◌∷◌, ◌≡◌, ◌↔◌, refl, ok, err, codes, as_set, sort_names,
  insert_name, contains, is_empty, In,
}
use agent_keep.Base.Dict
use agent_keep.Egress.Text.{same_text, lower, lower_code, ends_with, all_digits, number_from}
use agent_keep.Egress.Match.{rpartition, chomp, split_entry, host_covers, egress_entry_allows}
use agent_keep.Spec.Intake.{Method}
use agent_keep.Spec.Intake
use agent_keep.Spec.State
use agent_keep.Spec.Sample.{noc_spec, noc_webex, noc_sandbox, noc_urlsplit}
use agent_keep.Wiring.Tables.{
  channel_components, queue_components, session_components, provider_components, audit_components,
  allowlist_policies, buildable_session_definitions, buildable_history_strategies,
  buildable_persistence_tiers, buildable_memory_corpora, buildable_memory_write_policies,
  buildable_trigger_kinds, webex_api_host, slack_api_host, anthropic_api_host,
}
use agent_keep.Wiring.Guards.{
  Missing, channel_missing, channels_missing, activations_missing, queue_missing, mode_missing,
  grants_missing, local_missing, provider_missing, sink_missing, storage_missing, tiers_missing,
  unimplemented_selections,
}
use agent_keep.Wiring.Targets.{
  Violation, WiringError, ◌>>=◌, server_targets, mcp_egress_targets, channel_targets,
  channel_egress_targets, anthropic_tiers, provider_egress_targets, ollama_tiers, openai_tiers,
  ollama_egress_targets, openai_egress_targets, egress_targets, any_allows, base_target,
  violations_for, egress_violations,
}
use agent_keep.Wiring.Select.{
  events_of, schedules_of, ensure_buildable, lookup, lookups, any_local, any_remote,
  flagged_components, table_components, select_components, component_module_names,
}
use agent_keep.Wiring.Buildable.{IsBuildable, unimplemented_selections-IsBuildable}
use agent_keep.Wiring.Declared.{Declares}
use agent_keep.Wiring.Selected.{select_components-Declares}

nothing_missing : is_empty (unimplemented_selections [] noc_spec) ≡ true
unfolding unimplemented_selections channels_missing channel_missing Dict.get channel_components
    activations_missing contains buildable_trigger_kinds queue_missing queue_components
    allowlist_policies mode_missing session_components buildable_session_definitions
    buildable_history_strategies buildable_memory_corpora buildable_memory_write_policies
    local_missing grants_missing provider_missing sink_missing storage_missing tiers_missing
    audit_components buildable_persistence_tiers provider_components
nothing_missing = refl

noc_buildable : ensure_buildable noc_urlsplit [] noc_spec ≡ ok tt
unfolding ensure_buildable ◌>>=◌ unimplemented_selections channels_missing channel_missing Dict.get
    channel_components activations_missing contains buildable_trigger_kinds queue_missing
    queue_components allowlist_policies mode_missing session_components
    buildable_session_definitions buildable_history_strategies buildable_memory_corpora
    buildable_memory_write_policies local_missing grants_missing provider_missing sink_missing
    storage_missing tiers_missing audit_components buildable_persistence_tiers provider_components
    codes chomp egress_entry_allows host_covers rpartition split_entry all_digits ends_with lower
    lower_code number_from same_text anthropic_api_host slack_api_host webex_api_host
    anthropic_tiers any_allows base_target channel_egress_targets channel_targets egress_targets
    egress_violations mcp_egress_targets ollama_egress_targets ollama_tiers openai_egress_targets
    openai_tiers provider_egress_targets server_targets violations_for
noc_buildable = refl

noc_components :
    select_components noc_urlsplit [] noc_spec
    ≡ ok (
        "anthropic-provider" ∷ "event-intake" ∷ "jsonl-audit" ∷ "mcp-manager" ∷ "model-router"
        ∷ "pgvector-memory" ∷ "postgres-persistence" ∷ "prompt-assembler" ∷ "redis-queue"
        ∷ "retrieval-history" ∷ "webex-channel" ∷ [])
unfolding ◌>>=◌ select_components table_components flagged_components lookup lookups Dict.get
    channel_components queue_components provider_components audit_components events_of schedules_of
    any_local any_remote as_set sort_names insert_name contains
noc_components = rw noc_buildable refl

unimplemented_selections-IsBuildable_example : IsBuildable [] noc_spec
unimplemented_selections-IsBuildable_example =
    (unimplemented_selections-IsBuildable [] noc_spec).0 nothing_missing

select_components-Declares_example :
    (components modules : List String) × (select_components noc_urlsplit [] noc_spec
      ≡ ok components)
    × (component_module_names noc_urlsplit [] noc_spec ≡ ok modules)
    × ((c : String) → In c components ↔ Declares noc_spec c)
select_components-Declares_example =
    select_components-Declares noc_urlsplit [] noc_spec noc_buildable

-- An unverified webhook and a file store are all reported, in the source's order.
everything_missing :
    unimplemented_selections [] (record noc_spec {
      channels =
          Intake.Channel.dev_http (record { port = 8000 })
          ∷ Intake.Channel.webex (record noc_webex {
            verification = record { method = Method.unverified; secret_env = none };
          })
          ∷ [];
      persistence = record { tier = State.StorageTier.files };
    })
    ≡ Missing.webex_verification Method.unverified 1
      ∷ Missing.retrieval_on_tier State.StorageTier.files
      ∷ Missing.persistence_tier "files"
      ∷ []
unfolding unimplemented_selections channels_missing channel_missing Dict.get channel_components
    activations_missing contains buildable_trigger_kinds queue_missing queue_components
    allowlist_policies mode_missing session_components buildable_session_definitions
    buildable_history_strategies buildable_memory_corpora buildable_memory_write_policies
    local_missing grants_missing provider_missing sink_missing storage_missing tiers_missing
    audit_components buildable_persistence_tiers provider_components
everything_missing = refl

-- Without the entry for the platform the reply host is not covered.
reply_uncovered :
    ensure_buildable noc_urlsplit [] (record noc_spec {
      sandbox = record noc_sandbox {
        egress = "api.anthropic.com:443" ∷ "*.noc.internal:8443" ∷ [];
      };
    })
    ≡ err (WiringError.egress_cross_validation (Violation.webex_reply 0 ∷ []))
unfolding ensure_buildable ◌>>=◌ unimplemented_selections channels_missing channel_missing Dict.get
    channel_components activations_missing contains buildable_trigger_kinds queue_missing
    queue_components allowlist_policies mode_missing session_components
    buildable_session_definitions buildable_history_strategies buildable_memory_corpora
    buildable_memory_write_policies local_missing grants_missing provider_missing sink_missing
    storage_missing tiers_missing audit_components buildable_persistence_tiers provider_components
    codes chomp egress_entry_allows host_covers rpartition split_entry all_digits ends_with lower
    lower_code number_from same_text anthropic_api_host slack_api_host webex_api_host
    anthropic_tiers any_allows base_target channel_egress_targets channel_targets egress_targets
    egress_violations mcp_egress_targets ollama_egress_targets ollama_tiers openai_egress_targets
    openai_tiers provider_egress_targets server_targets violations_for
reply_uncovered = refl
