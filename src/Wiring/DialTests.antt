-- ===== src/Wiring/DialTests.antt =====
-- The reference spec on an Ollama server, whose base host names its port or does not.
use agent_keep.Base.{String, true, none, [], ◌∷◌, ◌≡◌, inl, refl, ok, codes, contains}
use agent_keep.Base.Dict
use agent_keep.Egress.Text.{same_text, lower, lower_code, ends_with, all_digits, number_from}
use agent_keep.Egress.Match.{rpartition, chomp, split_entry, host_covers, egress_entry_allows}
use agent_keep.Egress.Proxy.{
  Kind, ParsedRequest, received, Upstream, Network, Config, proxy_connection,
}
use agent_keep.Spec.Sample.{noc_spec, noc_sandbox, noc_urlsplit}
use agent_keep.Wiring.Tables.{
  channel_components, queue_components, session_components, provider_components, audit_components,
  allowlist_policies, buildable_session_definitions, buildable_history_strategies,
  buildable_persistence_tiers, buildable_memory_corpora, buildable_memory_write_policies,
  buildable_trigger_kinds, webex_api_host, slack_api_host, anthropic_api_host,
}
use agent_keep.Wiring.Guards.{
  channel_missing, channels_missing, activations_missing, queue_missing, mode_missing,
  grants_missing, local_missing, provider_missing, sink_missing, storage_missing, tiers_missing,
  unimplemented_selections,
}
use agent_keep.Wiring.Targets.{
  ◌>>=◌, server_targets, mcp_egress_targets, channel_targets, channel_egress_targets,
  anthropic_tiers, provider_egress_targets, ollama_tiers, openai_tiers, ollama_egress_targets,
  openai_egress_targets, egress_targets, any_allows, base_target, violations_for, entries,
  egress_violations,
}
use agent_keep.Wiring.Select.{ensure_buildable}
use agent_keep.Wiring.Contacts.{Contacts}
use agent_keep.Wiring.Runs.{proxy_connection-contacts}
use agent_keep.Base.{ℕ, some, ap, sym, eq_of_some}
use agent_keep.Egress.Text.{Text}
use agent_keep.Egress.Match.{match_allowlist}
use agent_keep.Spec.Tools.{Sandbox}
use agent_keep.Spec.Providers.{Provider, OllamaProviderConfig}
use agent_keep.Spec.Sections.{SpecSections}
use agent_keep.Spec.Sample.{noc_models}
use agent_keep.Wiring.Contacts.{Dials, NamesOllamaPort, HasOllamaPorts}

abbrev gpu_sandbox : Sandbox
gpu_sandbox = record noc_sandbox { egress = "webexapis.com:443" ∷ "gpu.noc.internal:11434" ∷ [] }

-- The tool servers are left out, so that the platform and the model server remain.
abbrev gpu_spec : String → SpecSections ℕ
gpu_spec base_host = record noc_spec {
  tools = [];
  sandbox = gpu_sandbox;
  models = record noc_models {
    provider = Provider.ollama;
    anthropic = none;
    ollama =
        some (record { model = "qwen"; base_host = base_host; max_tokens = none; pricing = none });
    tiers = [];
  };
}

abbrev gpu_host : Text
gpu_host =
    b'g' ∷ b'p' ∷ b'u' ∷ b'.' ∷ b'n' ∷ b'o' ∷ b'c' ∷ b'.' ∷ b'i' ∷ b'n' ∷ b't' ∷ b'e' ∷ b'r' ∷ b'n'
    ∷ b'a' ∷ b'l' ∷ []

abbrev gpu_port : Text
gpu_port = b'1' ∷ b'1' ∷ b'4' ∷ b'3' ∷ b'4' ∷ []

-- The guard passes both.
gpu_buildable :
    (ensure_buildable noc_urlsplit [] (gpu_spec "gpu.noc.internal:11434") ≡ ok tt)
    × (ensure_buildable noc_urlsplit [] (gpu_spec "gpu.noc.internal") ≡ ok tt)
unfolding ensure_buildable ◌>>=◌ unimplemented_selections channels_missing channel_missing Dict.get
    channel_components activations_missing contains buildable_trigger_kinds queue_missing
    queue_components allowlist_policies mode_missing session_components
    buildable_session_definitions buildable_history_strategies buildable_memory_corpora
    buildable_memory_write_policies local_missing grants_missing provider_missing sink_missing
    storage_missing tiers_missing audit_components buildable_persistence_tiers provider_components
    codes chomp egress_entry_allows host_covers rpartition split_entry all_digits ends_with lower
    lower_code number_from same_text anthropic_api_host slack_api_host webex_api_host
    anthropic_tiers any_allows base_target channel_egress_targets channel_targets egress_targets
    egress_violations mcp_egress_targets ollama_egress_targets ollama_tiers openai_egress_targets
    openai_tiers provider_egress_targets server_targets violations_for
gpu_buildable = (refl, refl)

abbrev gpu_config : Config
gpu_config = record {
  allowlist = entries gpu_sandbox.egress;
  agent = record { slug = "outage-correlation"; spec_version = "0.1.0" };
  max_connections = 64;
}

abbrev gpu_request : ℕ → ParsedRequest
gpu_request port = record {
  kind = Kind.absolute_kind;
  host = gpu_host;
  port = port;
  head_length = 120;
}

abbrev quiet_net : Network
quiet_net = record {
  upstream = Upstream.connected;
  first_write = true;
  relayed_up = 10;
  relayed_down = 20;
}

-- Port 80, which the runner's URL means where the base host names none, is refused.
portless_refused :
    (proxy_connection gpu_config "c1" (received (gpu_request 80)) quiet_net).answered ≡ some 403
unfolding proxy_connection match_allowlist codes egress_entry_allows split_entry host_covers lower
    lower_code rpartition chomp all_digits number_from ends_with same_text
portless_refused = refl

gpu_dialled : Dials 80 "gpu.noc.internal:11434" (gpu_host, 11434)
unfolding codes lower lower_code all_digits number_from
gpu_dialled = inl (gpu_host, gpu_port, (refl, refl, refl), refl, refl)

gpu_named :
    (c : OllamaProviderConfig ℕ) → c.base_host ≡ "gpu.noc.internal:11434" → NamesOllamaPort c
unfolding codes all_digits
gpu_named c e = (gpu_host, gpu_port, (ap codes e, refl, refl))

gpu_spec-HasOllamaPorts : HasOllamaPorts (gpu_spec "gpu.noc.internal:11434").models
gpu_spec-HasOllamaPorts = (
  λ c e. gpu_named c (sym (ap (λ (k : OllamaProviderConfig ℕ). k.base_host) (eq_of_some e))),
  λ t c i e. absurd i,
)

proxy_connection-contacts_example :
    (proxy_connection gpu_config "c1" (received (gpu_request 11434)) quiet_net).contacted ≡ true
proxy_connection-contacts_example =
    proxy_connection-contacts noc_urlsplit [] (gpu_spec "gpu.noc.internal:11434") gpu_config "c1"
      (gpu_request 11434) quiet_net gpu_buildable.0 gpu_spec-HasOllamaPorts refl
      (Contacts.ollama_default _ refl refl gpu_dialled)
