-- ===== src/Wiring/Select.antt =====
-- agent_runtime/wiring.py: the guard of the build, and the components of a spec that passes it.
use agent_keep.Base.{
  String, Bool, true, false, not, ◌||◌, Option, none, some, List, [], ◌∷◌, ◌++◌, map, Result, ok,
  err, is_empty, as_set, sort_names, if◌then◌else◌,
}
use agent_keep.Base.Dict
use agent_keep.Base.Dict.{Dict}
use agent_keep.Spec.Intake.{
  ScheduleTrigger, EventTrigger, Activation, message_trigger, schedule_trigger, event_trigger,
  Triggers, channel_type, queue_name,
}
use agent_keep.Spec.State.{History, MemoryStructure, facts, vectors, Memory, StorageTier, sink_name}
use agent_keep.Spec.Tools.{McpServer}
use agent_keep.Spec.Providers.{Models, provider_name}
use agent_keep.Spec.Sections.{SpecSections}
use agent_keep.Spec.Validate.{UrlParts, is_some}
use agent_keep.Wiring.Tables.{
  component_registry, channel_components, queue_components, provider_components, audit_components,
}
use agent_keep.Wiring.Guards.{
  Missing, is_retrieval, is_postgres, is_local, unimplemented_selections,
}
use agent_keep.Wiring.Targets.{Violation, WiringError, ◌>>=◌, egress_violations}

unfoldable pub events_of : List Activation → List EventTrigger
events_of [] = []
events_of (message_trigger ∷ rest) = events_of rest
events_of (schedule_trigger t ∷ rest) = events_of rest
events_of (event_trigger t ∷ rest) = t ∷ events_of rest

-- `event_activations`
abbrev pub event_activations : Option Triggers → List EventTrigger
event_activations none = []
event_activations (some t) = events_of t.activations

unfoldable pub schedules_of : List Activation → List ScheduleTrigger
schedules_of [] = []
schedules_of (message_trigger ∷ rest) = schedules_of rest
schedules_of (schedule_trigger t ∷ rest) = t ∷ schedules_of rest
schedules_of (event_trigger t ∷ rest) = schedules_of rest

-- `schedule_activations`
abbrev pub schedule_activations : Option Triggers → List ScheduleTrigger
schedule_activations none = []
schedule_activations (some t) = schedules_of t.activations

-- `tool_execution_required`
unfoldable pub tool_execution_required : {F : Type 0} → SpecSections F → Bool
tool_execution_required s = not (is_empty s.tools)

abbrev pub refuse_missing : List Missing → Result WiringError (Unit {0})
refuse_missing [] = ok tt
refuse_missing (m ∷ ms) = err (WiringError.component_not_implemented (m ∷ ms))

abbrev pub refuse_violations : List Violation → Result WiringError (Unit {0})
refuse_violations [] = ok tt
refuse_violations (v ∷ vs) = err (WiringError.egress_cross_validation (v ∷ vs))

-- `known` are the names of the registry of local tools.
unfoldable pub ensure_buildable :
    {F : Type 0}
    → (String → Option UrlParts)
    → List String
    → SpecSections F
    → Result WiringError (Unit {0})
ensure_buildable urlsplit known s = refuse_missing (unimplemented_selections known s) >>= λ _.
    egress_violations urlsplit s >>= refuse_violations

abbrev pub found : String → Option String → Result WiringError String
found key none = err (WiringError.key_error key)
found key (some value) = ok value

-- `table[key]`
unfoldable pub lookup : Dict String → String → Result WiringError String
lookup table key = found key (Dict.get table key)

unfoldable pub lookups : Dict String → List String → Result WiringError (List String)
lookups table [] = ok []
lookups table (key ∷ keys) = do
  value ← lookup table key
  values ← lookups table keys
  ok (value ∷ values)

abbrev pub if_selected : Bool → String → List String
if_selected true name = name ∷ []
if_selected false name = []

abbrev pub has_retrieval : Option History → Bool
has_retrieval none = false
has_retrieval (some h) = is_retrieval h

abbrev pub structure_component : MemoryStructure → String
structure_component facts = "facts-memory"
structure_component (vectors m) = "pgvector-memory"
structure_component (MemoryStructure.layered m) = "pgvector-memory"

abbrev pub memory_component : Option Memory → List String
memory_component none = []
memory_component (some m) = structure_component m.structure ∷ []

unfoldable pub any_local : List McpServer → Bool
any_local [] = false
any_local (s ∷ ss) = is_local s.transport || any_local ss

unfoldable pub any_remote : List McpServer → Bool
any_remote [] = false
any_remote (s ∷ ss) = not (is_local s.transport) || any_remote ss

abbrev pub storage_component : StorageTier → String
storage_component tier = if is_postgres tier then "postgres-persistence" else "sqlite-persistence"

module _ {F : Type 0} where
  abbrev pub needs_router : Models F → Bool
  needs_router m = not (is_empty m.tiers) || is_some m.budgets

  -- What `selected` holds besides the entries of the tables.
  unfoldable pub flagged_components : SpecSections F → List String
  flagged_components s =
      "prompt-assembler"
        ∷ storage_component s.persistence.tier
        ∷ if_selected (has_retrieval s.sessions.history) "retrieval-history"
      ++ (memory_component s.memory
          ++ (if_selected (needs_router s.models) "model-router"
              ++ (if_selected (not (is_empty (event_activations s.triggers))) "event-intake"
                  ++ (if_selected (not (is_empty (schedule_activations s.triggers)))
                        "schedule-trigger"
                      ++ (if_selected (any_local s.tools) "local-tools"
                          ++ if_selected (any_remote s.tools) "mcp-manager")))))

  -- The entries of the tables.
  unfoldable pub table_components : SpecSections F → Result WiringError (List String)
  table_components s = do
    channels ← lookups channel_components (map channel_type s.channels)
    queue ← lookup queue_components (queue_name s.gateway.queue)
    provider ← lookup provider_components (provider_name s.models.provider)
    tiers ← lookups provider_components (map (λ t. provider_name t.provider) s.models.tiers)
    sink ← lookup audit_components (sink_name s.observability.audit.sink)
    ok (channels ++ queue ∷ provider ∷ tiers ++ sink ∷ [])

  unfoldable pub select_components :
      (String → Option UrlParts) → List String → SpecSections F → Result WiringError (List String)
  select_components urlsplit known s = do
    u ← ensure_buildable urlsplit known s
    components ← table_components s
    ok (sort_names (as_set (components ++ flagged_components s)))

  unfoldable pub component_module_names :
      (String → Option UrlParts) → List String → SpecSections F → Result WiringError (List String)
  component_module_names urlsplit known s = do
    ids ← select_components urlsplit known s
    modules ← lookups component_registry ids
    ok (sort_names modules)
