-- ===== src/Wiring/Tables.antt =====
-- agent_runtime/wiring.py: the registry of components, and what the library can build.
use agent_keep.Base.{ℕ, String, List, [], ◌∷◌, codes}
use agent_keep.Base.Dict.{Dict}
use agent_keep.Egress.Text.{Text}

-- `COMPONENT_REGISTRY`
unfoldable pub component_registry : Dict String
component_registry =
    ("dev-http-channel", "dev_http")
    ∷ ("in-process-queue", "memory_queue")
    ∷ ("redis-queue", "redis_queue")
    ∷ ("single-session", "single_session")
    ∷ ("prompt-assembler", "prompt_assembler")
    ∷ ("static-provider", "static_provider")
    ∷ ("anthropic-provider", "anthropic_provider")
    ∷ ("ollama-provider", "ollama_provider")
    ∷ ("openai-provider", "openai_provider")
    ∷ ("model-router", "model_router")
    ∷ ("jsonl-audit", "jsonl_audit")
    ∷ ("local-tools", "local_tools")
    ∷ ("mcp-manager", "mcp_manager")
    ∷ ("webex-channel", "webex_channel")
    ∷ ("slack-channel", "slack_channel")
    ∷ ("postgres-persistence", "postgres_persistence")
    ∷ ("sqlite-persistence", "sqlite_persistence")
    ∷ ("pgvector-memory", "pgvector_memory")
    ∷ ("facts-memory", "facts_memory")
    ∷ ("event-intake", "event_intake")
    ∷ ("retrieval-history", "retrieval_history")
    ∷ ("schedule-trigger", "schedule_trigger")
    ∷ []

unfoldable pub channel_components : Dict String
channel_components =
    ("dev-http", "dev-http-channel") ∷ ("webex", "webex-channel") ∷ ("slack", "slack-channel") ∷ []

unfoldable pub queue_components : Dict String
queue_components = ("in-process", "in-process-queue") ∷ ("redis", "redis-queue") ∷ []

unfoldable pub session_components : Dict String
session_components = ("single", "single-session") ∷ []

unfoldable pub provider_components : Dict String
provider_components =
    ("static", "static-provider")
    ∷ ("anthropic", "anthropic-provider")
    ∷ ("ollama", "ollama-provider")
    ∷ ("openai", "openai-provider")
    ∷ []

unfoldable pub audit_components : Dict String
audit_components = ("jsonl", "jsonl-audit") ∷ []

unfoldable pub allowlist_policies : List String
allowlist_policies = "owner-only" ∷ "tiered" ∷ []

unfoldable pub buildable_session_definitions : List String
buildable_session_definitions = "per-channel" ∷ "per-user" ∷ []

unfoldable pub buildable_history_strategies : List String
buildable_history_strategies = "retrieval" ∷ "sliding-window" ∷ []

unfoldable pub buildable_persistence_tiers : List String
buildable_persistence_tiers = "sqlite" ∷ "postgres" ∷ []

unfoldable pub buildable_memory_corpora : List String
buildable_memory_corpora = "agent-summaries" ∷ []

unfoldable pub buildable_memory_write_policies : List String
buildable_memory_write_policies = "agent-autonomous" ∷ "off" ∷ []

abbrev pub facts_write_policy : String
facts_write_policy = "user-command"

unfoldable pub buildable_trigger_kinds : List String
buildable_trigger_kinds = "message" ∷ "event-subscription" ∷ "schedule" ∷ []

unfoldable pub webex_api_host : Text
unfolding codes
webex_api_host = codes "webexapis.com"

abbrev pub webex_api_port : ℕ
webex_api_port = 443

unfoldable pub slack_api_host : Text
unfolding codes
slack_api_host = codes "slack.com"

abbrev pub slack_api_port : ℕ
slack_api_port = 443

unfoldable pub anthropic_api_host : Text
unfolding codes
anthropic_api_host = codes "api.anthropic.com"

abbrev pub anthropic_api_port : ℕ
anthropic_api_port = 443

abbrev pub ollama_default_port : ℕ
ollama_default_port = 11434

abbrev pub openai_default_port : ℕ
openai_default_port = 443
