-- ===== src/Wiring/Guards.antt =====
-- agent_runtime/wiring.py: `unimplemented_selections`. `known` are the names of the registry of local
-- tools.
use agent_keep.Base.{
  ℕ, ◌+◌, String, Bool, true, false, not, Option, none, some, List, [], ◌∷◌, ◌++◌, map, is_empty,
  contains, str_eq, if◌then◌else◌,
}
use agent_keep.Base.Dict
use agent_keep.Gateway.Gate.{GatewayAllowlist, policy_name}
use agent_keep.Spec.Intake.{
  PersonaSource, Activation, Triggers, Method, Channel, dev_http, discord, slack, webex, sms,
  SlackTransport, Queue, Concurrency, Unification, channel_type, trigger_kind, queue_name,
}
use agent_keep.Spec.State.{
  History, sliding_window, summarization, retrieval, SessionMode, Definition, VectorStore, Corpus,
  MemoryStructure, facts, vectors, WritePolicy, Memory, Sink, HealthConfig, StorageTier,
  strategy_name, definition_name, session_mode, corpus_name, write_policy_name, sink_name,
  storage_name,
}
use agent_keep.Spec.Tools.{
  SkillPack, McpTransport, stdio, http, local, ToolGrant, McpServer, ApprovalPolicy, Profile,
}
use agent_keep.Spec.Providers.{Provider, ModelTier, provider_name}
use agent_keep.Spec.Sections.{SpecSections}
use agent_keep.Spec.Validate.{confirms_rest}
use agent_keep.Wiring.Tables.{
  channel_components, queue_components, session_components, provider_components, audit_components,
  allowlist_policies, buildable_session_definitions, buildable_history_strategies,
  buildable_persistence_tiers, buildable_memory_corpora, buildable_memory_write_policies,
  facts_write_policy, buildable_trigger_kinds,
}

-- A selection that has no component, by what its message names.
pub data Missing : Type 0 where
  channel_adapter : String → ℕ → Missing
  webex_verification slack_verification : Method → ℕ → Missing
  slack_transport : SlackTransport → ℕ → Missing
  trigger queue session_manager session_definition history_strategy persistence_tier :
      String → Missing
  concurrency : Concurrency → Missing
  allowlist_policy : String → Missing
  identity_unification : Unification → Missing
  retrieval_on_tier : StorageTier → Missing
  persona_source : PersonaSource → Missing
  facts_policy memory_policy : String → Missing
  memory_structure : MemoryStructure → Missing
  vector_store : VectorStore → Missing
  memory_corpus : Option Corpus → Missing
  skill_registry : List String → Missing
  local_tool : String → String → Missing
  approval_policy : ApprovalPolicy → Missing
  sandbox_profile : Profile → Missing
  model_provider : String → Missing
  tier_provider : String → String → Missing
  audit_sink health_path : String → Missing

abbrev pub missing_if : Bool → Missing → List Missing
missing_if true m = m ∷ []
missing_if false m = []

abbrev pub is_signature : Method → Bool
is_signature Method.signature = true
is_signature Method.token = false
is_signature Method.unverified = false

abbrev pub is_webhook : SlackTransport → Bool
is_webhook SlackTransport.webhook = true
is_webhook SlackTransport.websocket = false
is_webhook SlackTransport.polling = false

-- What an adapter that is there does not enforce.
abbrev pub unenforced : ℕ → Channel → List Missing
unenforced index (dev_http c) = []
unenforced index (discord c) = []
unenforced index (slack c) =
    if not (is_webhook c.transport)
    then Missing.slack_transport c.transport index ∷ []
    else missing_if (not (is_signature c.verification.method))
        (Missing.slack_verification c.verification.method index)
unenforced index (webex c) =
    missing_if (not (is_signature c.verification.method))
      (Missing.webex_verification c.verification.method index)
unenforced index (sms c) = []

unfoldable pub channel_missing : ℕ → Channel → List Missing
channel_missing index c =
    if not (Dict.has channel_components (channel_type c))
    then Missing.channel_adapter (channel_type c) index ∷ []
    else unenforced index c

unfoldable pub channels_missing : ℕ → List Channel → List Missing
channels_missing index [] = []
channels_missing index (c ∷ cs) = channel_missing index c ++ channels_missing (index + 1) cs

unfoldable pub activations_missing : List Activation → List Missing
activations_missing [] = []
activations_missing (a ∷ rest) =
    missing_if (not (contains buildable_trigger_kinds (trigger_kind a)))
      (Missing.trigger (trigger_kind a))
    ++ activations_missing rest

abbrev pub triggers_missing : Option Triggers → List Missing
triggers_missing none = []
triggers_missing (some t) = activations_missing t.activations

unfoldable pub queue_missing : Queue → List Missing
queue_missing q =
    missing_if (not (Dict.has queue_components (queue_name q))) (Missing.queue (queue_name q))

abbrev pub is_serial : Concurrency → Bool
is_serial Concurrency.serial = true
is_serial Concurrency.concurrent_locked = false

abbrev pub allowlist_missing : Option GatewayAllowlist → List Missing
allowlist_missing none = []
allowlist_missing (some a) =
    missing_if (not (contains allowlist_policies (policy_name a.policy)))
      (Missing.allowlist_policy (policy_name a.policy))

abbrev pub is_separate : Unification → Bool
is_separate Unification.manual_link = false
is_separate Unification.challenge = false
is_separate Unification.separate = true

unfoldable pub mode_missing : SessionMode → List Missing
mode_missing m =
    missing_if (not (Dict.has session_components (session_mode m)))
      (Missing.session_manager (session_mode m))

abbrev pub definition_missing : Option Definition → List Missing
definition_missing none = []
definition_missing (some d) =
    missing_if (not (contains buildable_session_definitions (definition_name d)))
      (Missing.session_definition (definition_name d))

abbrev pub is_retrieval : History → Bool
is_retrieval (sliding_window h) = false
is_retrieval (summarization h) = false
is_retrieval (retrieval h) = true
is_retrieval (History.layered h) = false

abbrev pub is_postgres : StorageTier → Bool
is_postgres StorageTier.files = false
is_postgres StorageTier.sqlite = false
is_postgres StorageTier.postgres = true

abbrev pub history_missing : StorageTier → Option History → List Missing
history_missing tier none = []
history_missing tier (some h) =
    if not (contains buildable_history_strategies (strategy_name h))
    then Missing.history_strategy (strategy_name h) ∷ []
    else if is_retrieval h
    then missing_if (not (is_postgres tier)) (Missing.retrieval_on_tier tier)
    else []

abbrev pub is_static : PersonaSource → Bool
is_static PersonaSource.static = true
is_static PersonaSource.learned = false
is_static PersonaSource.both = false

abbrev pub corpus_is_buildable : Option Corpus → Bool
corpus_is_buildable none = false
corpus_is_buildable (some c) = contains buildable_memory_corpora (corpus_name c)

abbrev pub is_pgvector : VectorStore → Bool
is_pgvector VectorStore.sqlite_vec = false
is_pgvector VectorStore.pgvector = true

abbrev pub structure_missing : WritePolicy → MemoryStructure → List Missing
structure_missing policy facts =
    missing_if (not (str_eq (write_policy_name policy) facts_write_policy))
      (Missing.facts_policy (write_policy_name policy))
structure_missing policy (vectors m) =
    if not (is_pgvector m.store)
    then Missing.vector_store m.store ∷ []
    else missing_if (not (corpus_is_buildable m.corpus)) (Missing.memory_corpus m.corpus)
      ++ missing_if (not (contains buildable_memory_write_policies (write_policy_name policy)))
          (Missing.memory_policy (write_policy_name policy))
structure_missing policy (MemoryStructure.layered m) =
    Missing.memory_structure (MemoryStructure.layered m) ∷ []

abbrev pub memory_missing : Option Memory → List Missing
memory_missing none = []
memory_missing (some m) = structure_missing m.write_policy m.structure

abbrev pub is_local : McpTransport → Bool
is_local (stdio t) = false
is_local (http t) = false
is_local local = true

unfoldable pub grants_missing : List String → String → List ToolGrant → List Missing
grants_missing known server [] = []
grants_missing known server (g ∷ gs) =
    missing_if (not (contains known g.name)) (Missing.local_tool g.name server)
    ++ grants_missing known server gs

unfoldable pub local_missing : List String → List McpServer → List Missing
local_missing known [] = []
local_missing known (s ∷ ss) =
    (if is_local s.transport then grants_missing known s.name s.allow else [])
    ++ local_missing known ss

abbrev pub is_container : Profile → Bool
is_container Profile.same_process = false
is_container Profile.restricted_user = false
is_container Profile.container = true

unfoldable pub provider_missing : Provider → List Missing
provider_missing p =
    missing_if (not (Dict.has provider_components (provider_name p)))
      (Missing.model_provider (provider_name p))

unfoldable pub sink_missing : Sink → List Missing
sink_missing s =
    missing_if (not (Dict.has audit_components (sink_name s))) (Missing.audit_sink (sink_name s))

abbrev pub health_missing : Option HealthConfig → List Missing
health_missing none = []
health_missing (some h) = missing_if (not (str_eq h.path "/healthz")) (Missing.health_path h.path)

unfoldable pub storage_missing : StorageTier → List Missing
storage_missing tier =
    missing_if (not (contains buildable_persistence_tiers (storage_name tier)))
      (Missing.persistence_tier (storage_name tier))

abbrev pub skills_missing : List SkillPack → List Missing
skills_missing packs =
    missing_if (not (is_empty packs)) (Missing.skill_registry (map (λ p. p.name) packs))

module _ {F : Type 0} where
  unfoldable pub tiers_missing : List (ModelTier F) → List Missing
  tiers_missing [] = []
  tiers_missing (t ∷ ts) =
      missing_if (not (Dict.has provider_components (provider_name t.provider)))
        (Missing.tier_provider (provider_name t.provider) t.name)
      ++ tiers_missing ts

  unfoldable pub unimplemented_selections : List String → SpecSections F → List Missing
  unimplemented_selections known s =
      channels_missing 0 s.channels
      ++ (triggers_missing s.triggers
          ++ (queue_missing s.gateway.queue
              ++ (missing_if (not (is_serial s.gateway.concurrency))
                    (Missing.concurrency s.gateway.concurrency)
                  ++ (allowlist_missing s.gateway.allowlist
                      ++ (missing_if (not (is_separate s.gateway.identity_unification))
                            (Missing.identity_unification s.gateway.identity_unification)
                          ++ (mode_missing s.sessions.mode
                              ++ (definition_missing s.sessions.definition
                                  ++ (history_missing s.persistence.tier s.sessions.history
                                      ++ (missing_if (not (is_static s.persona.source))
                                            (Missing.persona_source s.persona.source)
                                          ++ (memory_missing s.memory
                                              ++ (skills_missing s.skills
                                                  ++ (local_missing known s.tools
                                                      ++ (missing_if
                                                            (not (confirms_rest s.approval.policy))
                                                            (Missing.approval_policy
                                                            s.approval.policy)
                                                          ++ (missing_if
                                                            (not (is_container s.sandbox.profile))
                                                            (Missing.sandbox_profile
                                                            s.sandbox.profile)
                                                            ++ (provider_missing s.models.provider
                                                            ++ (tiers_missing s.models.tiers
                                                            ++ (sink_missing
                                                            s.observability.audit.sink
                                                            ++ (health_missing
                                                            s.observability.health
                                                            ++ storage_missing
                                                            s.persistence.tier))))))))))))))))))
