-- ===== src/Wiring/Declared.antt =====
-- The components that a spec declares.
use agent_keep.Base.{String, none, some, [], ◌≡◌, ◌≢◌, ◌⊎◌, In}
use agent_keep.Spec.Intake.{
  Activation, message_trigger, schedule_trigger, event_trigger, Triggers, Channel,
}
use agent_keep.Spec.State.{retrieval, RetrievalHistory, MemoryStructure, facts, vectors, Memory}
use agent_keep.Spec.Tools.{local, McpServer}
use agent_keep.Spec.Providers.{ModelTier}
use agent_keep.Spec.Sections.{SpecSections}
use agent_keep.Wiring.Tabled.{adapter_name, queue_component, provider_component, database_component}

-- A memory's component.
abbrev pub Remembers : MemoryStructure → String → Type 0
Remembers facts c = "facts-memory" ≡ c
Remembers (vectors m) c = "pgvector-memory" ≡ c
Remembers (MemoryStructure.layered m) c = "pgvector-memory" ≡ c

abbrev pub Activates : {F : Type 0} → SpecSections F → (Activation → Type 0) → Type 0
Activates s P =
    (ts : Triggers) × (s.triggers ≡ some ts) × (a : Activation) × In a ts.activations × P a

abbrev pub IsEvent : Activation → Type 0
IsEvent message_trigger = ⊥
IsEvent (schedule_trigger t) = ⊥
IsEvent (event_trigger t) = Unit

abbrev pub IsSchedule : Activation → Type 0
IsSchedule message_trigger = ⊥
IsSchedule (schedule_trigger t) = Unit
IsSchedule (event_trigger t) = ⊥

-- The components that a spec declares, and nothing else.
pub data Declares {F : Type 0} (s : SpecSections F) (c : String) : Type 0 where
  assembler : "prompt-assembler" ≡ c → Declares s c
  channel : (ch : Channel) → In ch s.channels → adapter_name ch ≡ c → Declares s c
  queue : queue_component s.gateway.queue ≡ c → Declares s c
  storage : database_component s.persistence.tier ≡ c → Declares s c
  history :
      (h : RetrievalHistory)
      → s.sessions.history ≡ some (retrieval h)
      → "retrieval-history" ≡ c
      → Declares s c
  memory : (m : Memory) → s.memory ≡ some m → Remembers m.structure c → Declares s c
  provider : provider_component s.models.provider ≡ c → Declares s c
  tier : (t : ModelTier F) → In t s.models.tiers → provider_component t.provider ≡ c → Declares s c
  router : (s.models.tiers ≢ []) ⊎ (s.models.budgets ≢ none) → "model-router" ≡ c → Declares s c
  audit : "jsonl-audit" ≡ c → Declares s c
  events : Activates s IsEvent → "event-intake" ≡ c → Declares s c
  schedules : Activates s IsSchedule → "schedule-trigger" ≡ c → Declares s c
  local_tools :
      (server : McpServer)
      → In server s.tools
      → server.transport ≡ local
      → "local-tools" ≡ c
      → Declares s c
  mcp_manager :
      (server : McpServer)
      → In server s.tools
      → server.transport ≢ local
      → "mcp-manager" ≡ c
      → Declares s c
