-- ===== src/Spec/Sample.antt =====
-- examples/outage-correlation.yaml, with whole numbers for the rates, and what `urlsplit` finds in its
-- two URLs.
use agent_keep.Base.{ℕ, String, Option, none, some, List, [], ◌∷◌, str_eq, if◌then◌else◌}
use agent_keep.Gateway.Gate.{Policy, Tier, GatewayAllowlist}
use agent_keep.Router.Budget.{OnExceed}
use agent_keep.Executor.Build.{Scope}
use agent_keep.Spec.Intake
use agent_keep.Spec.Intake.{Persona, Triggers, Channel, Gateway}
use agent_keep.Spec.State
use agent_keep.Spec.State.{Sessions, Memory, Observability, Persistence}
use agent_keep.Spec.Tools
use agent_keep.Spec.Tools.{ToolGrant, McpServer, Approval, Sandbox}
use agent_keep.Spec.Providers
use agent_keep.Spec.Providers.{Pricing, AnthropicProviderConfig, ModelTier, Models}
use agent_keep.Spec.Sections.{SpecSections}
use agent_keep.Spec.Validate.{UrlParts}

abbrev pub noc_persona : Persona
noc_persona = record {
  identity = "You are the NOC outage-correlation agent.";
  tone = some "terse, factual, incident-report style";
  instructions = "Correlate before you page; one page per probable cause, not per alarm." ∷ [];
  source = Intake.PersonaSource.static;
  precedence = none;
}

abbrev pub noc_triggers : Triggers
noc_triggers = record {
  activations =
      Intake.Activation.message_trigger
      ∷ Intake.Activation.event_trigger (record {
        source = "alertmanager";
        event = some "alarm.raised";
        prompt = some "Triage this alarm.";
        secret_env = "EVENT_WEBHOOK_SECRET";
      })
      ∷ [];
}

abbrev pub noc_webex : Intake.WebexChannel
noc_webex = record {
  transport = Intake.HookTransport.webhook;
  verification = record {
    method = Intake.Method.signature;
    secret_env = some "WEBEX_WEBHOOK_SECRET";
  };
}

abbrev pub noc_allowlist : GatewayAllowlist
noc_allowlist = record {
  policy = Policy.tiered;
  roster =
      record { id = "webex:nina.owner@example.com"; tier = Tier.owner }
      ∷ record { id = "webex:kofi.noc@example.com"; tier = Tier.trusted }
      ∷ record { id = "webex:mara.noc@example.com"; tier = Tier.trusted }
      ∷ record { id = "webex:jules.noc@example.com"; tier = Tier.trusted }
      ∷ [];
}

abbrev pub noc_gateway : Gateway
noc_gateway = record {
  queue = Intake.Queue.redis;
  concurrency = Intake.Concurrency.serial;
  allowlist = some noc_allowlist;
  identity_unification = Intake.Unification.separate;
}

abbrev pub noc_sessions : Sessions
noc_sessions = record {
  mode = State.SessionMode.single;
  definition = some State.Definition.per_channel;
  history = some (State.History.retrieval (record { top_k = 5 }));
}

abbrev pub noc_memory : Memory
noc_memory = record {
  structure =
      State.MemoryStructure.vectors
        (record { store = State.VectorStore.pgvector; corpus = some State.Corpus.agent_summaries });
  write_policy = State.WritePolicy.agent_autonomous;
}

abbrev reads : String → ToolGrant
reads name = record { name = name; scope = Scope.read_only; constraints = none }

abbrev pub noc_tools : List McpServer
noc_tools =
    record {
      name = "observability";
      transport =
          Tools.McpTransport.http (record { url = "https://observability.noc.internal:8443/mcp" });
      allow = reads "query_alarms" ∷ reads "query_metrics" ∷ reads "search_syslog" ∷ [];
      secret_envs = "OBSERVABILITY_MCP_TOKEN" ∷ [];
    }
    ∷ record {
      name = "device-inventory";
      transport =
          Tools.McpTransport.http (record { url = "https://inventory.noc.internal:8443/mcp" });
      allow = reads "get_device" ∷ reads "search_devices" ∷ [];
      secret_envs = "INVENTORY_MCP_TOKEN" ∷ [];
    }
    ∷ record {
      name = "noc-paging";
      transport = Tools.McpTransport.stdio (record { command = "mcp-webex-page"; args = [] });
      allow =
          record {
            name = "page_room";
            scope = Scope.read_write;
            constraints = some (("room", Tools.ConstraintValue.text_value "noc-outages") ∷ []);
          }
          ∷ [];
      secret_envs = "WEBEX_BOT_TOKEN" ∷ [];
    }
    ∷ []

abbrev pub noc_approval : Approval
noc_approval = record {
  policy = Tools.ApprovalPolicy.allowlist_confirm_rest;
  auto_approve =
      "observability.query_alarms" ∷ "observability.query_metrics" ∷ "observability.search_syslog"
      ∷ "device-inventory.get_device" ∷ "device-inventory.search_devices" ∷ "noc-paging.page_room"
      ∷ [];
}

abbrev pub noc_sandbox : Sandbox
noc_sandbox = record {
  profile = Tools.Profile.container;
  egress =
      "webexapis.com:443" ∷ "api.anthropic.com:443" ∷ "observability.noc.internal:8443"
      ∷ "inventory.noc.internal:8443" ∷ "redis.noc.internal:6379" ∷ "postgres.noc.internal:5432"
      ∷ [];
}

abbrev claude : String → ℕ → ℕ → AnthropicProviderConfig ℕ
claude model input output = record {
  model = model;
  api_key_env = "ANTHROPIC_API_KEY";
  max_tokens = none;
  pricing = some (record {
    usd_per_million_input_tokens = some input;
    usd_per_million_output_tokens = some output;
  });
}

abbrev lane : String → AnthropicProviderConfig ℕ → ModelTier ℕ
lane name config = record {
  name = name;
  provider = Providers.Provider.anthropic;
  static = none;
  anthropic = some config;
  ollama = none;
  openai = none;
}

abbrev pub noc_models : Models ℕ
noc_models = record {
  provider = Providers.Provider.anthropic;
  static = none;
  anthropic = some (claude "claude-haiku-4-5" 1 5);
  ollama = none;
  openai = none;
  tiers =
      lane "triage" (claude "claude-haiku-4-5" 1 5)
      ∷ lane "correlation" (claude "claude-opus-4-1" 15 75)
      ∷ [];
  budgets = some (record {
    max_tokens_per_session = none;
    max_usd_per_session = some 5;
    on_exceed = OnExceed.warn;
  });
}

abbrev pub noc_spec : SpecSections ℕ
noc_spec = record {
  persona = noc_persona;
  triggers = some noc_triggers;
  channels = Channel.webex noc_webex ∷ [];
  gateway = noc_gateway;
  sessions = noc_sessions;
  memory = some noc_memory;
  skills = [];
  tools = noc_tools;
  approval = noc_approval;
  sandbox = noc_sandbox;
  models = noc_models;
  observability = record {
    audit = record { sink = State.Sink.jsonl; path = "/var/lib/agent-keep/audit.jsonl" };
    log_level = State.LogLevel.info;
    health = none;
  };
  persistence = record { tier = State.StorageTier.postgres };
}

abbrev noc_parts : String → UrlParts
noc_parts hostname = record {
  scheme = "https";
  username = none;
  password = none;
  hostname = some hostname;
  port = some (some 8443);
}

abbrev pub noc_urlsplit : String → Option UrlParts
noc_urlsplit url =
    if str_eq url "https://observability.noc.internal:8443/mcp"
    then some (noc_parts "observability.noc.internal")
    else if str_eq url "https://inventory.noc.internal:8443/mcp"
    then some (noc_parts "inventory.noc.internal")
    else none
