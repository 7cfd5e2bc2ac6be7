-- ===== src/Wiring/Listed.antt =====
-- The names behind the tables and the tests of `select_components` are those that a spec declares.
use agent_keep.Base.{
  String, not, none, some, List, [], ◌∷◌, ◌++◌, ◌≡◌, ◌≢◌, ◌↔◌, ◌⊎◌, inl, inr, sym, ◌∙◌, map,
  is_empty, In, In-append, In-map, as_set, sort_names, contains_iff, contains-as_set,
  contains-sort_names,
}
use agent_keep.Spec.Intake.{Channel}
use agent_keep.Spec.State.{retrieval, RetrievalHistory, Memory}
use agent_keep.Spec.Tools.{local, McpServer}
use agent_keep.Spec.Providers.{ModelTier}
use agent_keep.Spec.Sections.{SpecSections}
use agent_keep.Wiring.Select.{
  event_activations, schedule_activations, if_selected, has_retrieval, memory_component, any_local,
  any_remote, storage_component, needs_router, flagged_components,
}
use agent_keep.Wiring.Tabled.{
  storage_component-database, adapter_name, queue_component, provider_component, tabled,
}
use agent_keep.Wiring.Declared.{Remembers, Activates, IsEvent, IsSchedule, Declares}
use agent_keep.Wiring.Flags.{
  In-either, flag_iff, has_retrieval_iff, memory_component_iff, needs_router_iff,
  event_activations_iff, schedule_activations_iff, any_local_iff, any_remote_iff,
}

one_iff : (name c : String) → In c (name ∷ []) ↔ (name ≡ c)
one_iff name c = (λ h. elim h [ inl e ↦ e | inr x ↦ absurd x ], λ e. inl e)

cons_iff :
    {P : Type 0} (name c : String) (ns : List String)
    → (In c ns ↔ P)
    → In c (name ∷ ns) ↔ ((name ≡ c) ⊎ P)
cons_iff name c ns p = (
  λ h. elim h [ inl e ↦ inl e | inr x ↦ inr (p.0 x) ],
  λ h. elim h [ inl e ↦ inl e | inr x ↦ inr (p.1 x) ],
)

-- Where a name may stand.
abbrev IsTabled : {F : Type 0} → SpecSections F → String → Type 0
IsTabled {F} s c =
    (((ch : Channel) × In ch s.channels × (adapter_name ch ≡ c))
      ⊎ ((queue_component s.gateway.queue ≡ c)
          ⊎ ((provider_component s.models.provider ≡ c)
              ⊎ ((t : ModelTier F) × In t s.models.tiers × (provider_component t.provider ≡ c)))))
    ⊎ ("jsonl-audit" ≡ c)

abbrev IsFlagged : {F : Type 0} → SpecSections F → String → Type 0
IsFlagged s c =
    (("prompt-assembler" ≡ c)
      ⊎ ((storage_component s.persistence.tier ≡ c)
          ⊎ (((h : RetrievalHistory) × (s.sessions.history ≡ some (retrieval h)))
              × ("retrieval-history" ≡ c))))
    ⊎ (((m : Memory) × (s.memory ≡ some m) × Remembers m.structure c)
        ⊎ ((((s.models.tiers ≢ []) ⊎ (s.models.budgets ≢ none)) × ("model-router" ≡ c))
            ⊎ ((Activates s IsEvent × ("event-intake" ≡ c))
                ⊎ ((Activates s IsSchedule × ("schedule-trigger" ≡ c))
                    ⊎ ((((v : McpServer) × In v s.tools × (v.transport ≡ local))
                          × ("local-tools" ≡ c))
                        ⊎ (((v : McpServer) × In v s.tools × (v.transport ≢ local))
                            × ("mcp-manager" ≡ c)))))))

tabled_iff : {F : Type 0} (s : SpecSections F) (c : String) → In c (tabled s) ↔ IsTabled s c
tabled_iff s c =
    let tiers = map (λ t. provider_component t.provider) s.models.tiers in
    let choices = queue_component s.gateway.queue ∷ provider_component s.models.provider ∷ tiers in
    In-either c (map adapter_name s.channels ++ choices) ("jsonl-audit" ∷ [])
      (In-either c (map adapter_name s.channels) choices (In-map adapter_name c s.channels) (
        cons_iff (queue_component s.gateway.queue) c (provider_component s.models.provider ∷ tiers)
          (cons_iff (provider_component s.models.provider) c tiers
            (In-map (λ t. provider_component t.provider) c s.models.tiers))))
      (one_iff "jsonl-audit" c)

flagged_components_iff :
    {F : Type 0} (s : SpecSections F) (c : String) → In c (flagged_components s) ↔ IsFlagged s c
unfolding flagged_components
flagged_components_iff s c =
    let retrieves = if_selected (has_retrieval s.sessions.history) "retrieval-history" in
    let storage = storage_component s.persistence.tier in
    let remote = if_selected (any_remote s.tools) "mcp-manager" in
    let tools = if_selected (any_local s.tools) "local-tools" ++ remote in
    let clock =
      if_selected (not (is_empty (schedule_activations s.triggers))) "schedule-trigger" ++ tools in
    let intake =
      if_selected (not (is_empty (event_activations s.triggers))) "event-intake" ++ clock in
    let router = if_selected (needs_router s.models) "model-router" ++ intake in
    In-either c ("prompt-assembler" ∷ storage ∷ retrieves) (memory_component s.memory ++ router)
      (cons_iff "prompt-assembler" c (storage ∷ retrieves) (
        cons_iff storage c retrieves (
          flag_iff (has_retrieval s.sessions.history) "retrieval-history" c
            (has_retrieval_iff s.sessions.history))))
      (In-either c (memory_component s.memory) router (memory_component_iff s.memory c) (
        In-either c (if_selected (needs_router s.models) "model-router") intake
          (flag_iff (needs_router s.models) "model-router" c (needs_router_iff s.models))
          (In-either c (if_selected (not (is_empty (event_activations s.triggers))) "event-intake")
            clock
            (flag_iff (not (is_empty (event_activations s.triggers))) "event-intake" c
              (event_activations_iff s))
            (In-either c
              (if_selected (not (is_empty (schedule_activations s.triggers))) "schedule-trigger")
              tools
              (flag_iff (not (is_empty (schedule_activations s.triggers))) "schedule-trigger" c
                (schedule_activations_iff s))
              (In-either c (if_selected (any_local s.tools) "local-tools") remote
                (flag_iff (any_local s.tools) "local-tools" c (any_local_iff s.tools))
                (flag_iff (any_remote s.tools) "mcp-manager" c (any_remote_iff s.tools)))))))

tabled-Declares : {F : Type 0} (s : SpecSections F) (c : String) → IsTabled s c → Declares s c
tabled-Declares s c (inl (inl (ch, i, e))) = Declares.channel ch i e
tabled-Declares s c (inl (inr (inl e))) = Declares.queue e
tabled-Declares s c (inl (inr (inr (inl e)))) = Declares.provider e
tabled-Declares s c (inl (inr (inr (inr (t, i, e))))) = Declares.tier t i e
tabled-Declares s c (inr e) = Declares.audit e

flagged-Declares : {F : Type 0} (s : SpecSections F) (c : String) → IsFlagged s c → Declares s c
flagged-Declares s c (inl (inl e)) = Declares.assembler e
flagged-Declares s c (inl (inr (inl e))) =
    Declares.storage (sym (storage_component-database s.persistence.tier) ∙ e)
flagged-Declares s c (inl (inr (inr ((h, e), f)))) = Declares.history h e f
flagged-Declares s c (inr (inl (m, e, f))) = Declares.memory m e f
flagged-Declares s c (inr (inr (inl (o, f)))) = Declares.router o f
flagged-Declares s c (inr (inr (inr (inl (a, f))))) = Declares.events a f
flagged-Declares s c (inr (inr (inr (inr (inl (a, f)))))) = Declares.schedules a f
flagged-Declares s c (inr (inr (inr (inr (inr (inl ((v, i, e), f))))))) =
    Declares.local_tools v i e f
flagged-Declares s c (inr (inr (inr (inr (inr (inr ((v, i, e), f))))))) =
    Declares.mcp_manager v i e f

Declares-listed :
    {F : Type 0} (s : SpecSections F) (c : String) → Declares s c → IsTabled s c ⊎ IsFlagged s c
Declares-listed s c (Declares.assembler e) = inr (inl (inl e))
Declares-listed s c (Declares.channel ch i e) = inl (inl (inl (ch, i, e)))
Declares-listed s c (Declares.queue e) = inl (inl (inr (inl e)))
Declares-listed s c (Declares.storage e) =
    inr (inl (inr (inl (storage_component-database s.persistence.tier ∙ e))))
Declares-listed s c (Declares.history h e f) = inr (inl (inr (inr ((h, e), f))))
Declares-listed s c (Declares.memory m e f) = inr (inr (inl (m, e, f)))
Declares-listed s c (Declares.provider e) = inl (inl (inr (inr (inl e))))
Declares-listed s c (Declares.tier t i e) = inl (inl (inr (inr (inr (t, i, e)))))
Declares-listed s c (Declares.router o f) = inr (inr (inr (inl (o, f))))
Declares-listed s c (Declares.audit e) = inl (inr e)
Declares-listed s c (Declares.events a f) = inr (inr (inr (inr (inl (a, f)))))
Declares-listed s c (Declares.schedules a f) = inr (inr (inr (inr (inr (inl (a, f))))))
Declares-listed s c (Declares.local_tools v i e f) =
    inr (inr (inr (inr (inr (inr (inl ((v, i, e), f)))))))
Declares-listed s c (Declares.mcp_manager v i e f) =
    inr (inr (inr (inr (inr (inr (inr ((v, i, e), f)))))))

-- The sorted set behind the tables and the tests holds what the spec declares.
pub selected_iff :
    {F : Type 0} (s : SpecSections F) (c : String)
    → In c (sort_names (as_set (tabled s ++ flagged_components s))) ↔ Declares s c
selected_iff s c =
    let names = tabled s ++ flagged_components s in
    let same = contains-sort_names (as_set names) c ∙ contains-as_set names c in
    let a = contains_iff (sort_names (as_set names)) c in
    let b = contains_iff names c in
    let l = In-append c (tabled s) (flagged_components s) in
    let t = tabled_iff s c in
    let g = flagged_components_iff s c in
    (
      λ h. elim (l.0 (b.0 (sym same ∙ a.1 h))) [
        | inl x ↦ tabled-Declares s c (t.0 x)
        | inr y ↦ flagged-Declares s c (g.0 y)
      ],
      λ d. a.0 (
          same
          ∙ b.1 (l.1 (elim (Declares-listed s c d) [ inl x ↦ inl (t.1 x) | inr y ↦ inr (g.1 y) ]))),
    )
