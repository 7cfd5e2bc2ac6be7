-- ===== src/Wiring/Registered.antt =====
-- The registry has what a spec with its adapters declares.
use agent_keep.Base.{String, true, ◌≡◌, refl, All, All-In}
use mathlib.Core.Path.{subst}
use agent_keep.Base.Dict
use agent_keep.Spec.Intake.{Channel, dev_http, discord, slack, webex, sms, Queue}
use agent_keep.Spec.State.{MemoryStructure, facts, vectors, StorageTier}
use agent_keep.Spec.Providers.{Provider}
use agent_keep.Spec.Sections.{SpecSections}
use agent_keep.Wiring.Tables.{component_registry}
use agent_keep.Wiring.Tabled.{database_component}
use agent_keep.Wiring.Tabled.{adapter_name, queue_component, provider_component}
use agent_keep.Wiring.Adapted.{IsAdapted}
use agent_keep.Wiring.Declared.{Remembers, Declares}

adapter_registered :
    (ch : Channel) → IsAdapted ch → Dict.has component_registry (adapter_name ch) ≡ true
unfolding component_registry Dict.get
adapter_registered (dev_http c) h = refl
adapter_registered (discord c) h = absurd h
adapter_registered (slack c) h = refl
adapter_registered (webex c) h = refl
adapter_registered (sms c) h = absurd h

queue_registered : (q : Queue) → Dict.has component_registry (queue_component q) ≡ true
unfolding component_registry Dict.get
queue_registered Queue.in_process = refl
queue_registered Queue.redis = refl

provider_registered : (p : Provider) → Dict.has component_registry (provider_component p) ≡ true
unfolding component_registry Dict.get
provider_registered Provider.static = refl
provider_registered Provider.anthropic = refl
provider_registered Provider.ollama = refl
provider_registered Provider.openai = refl

storage_registered : (t : StorageTier) → Dict.has component_registry (database_component t) ≡ true
unfolding component_registry Dict.get
storage_registered StorageTier.files = refl
storage_registered StorageTier.sqlite = refl
storage_registered StorageTier.postgres = refl

memory_registered :
    (m : MemoryStructure) (c : String) → Remembers m c → Dict.has component_registry c ≡ true
unfolding component_registry Dict.get
memory_registered facts c e = subst (λ n. Dict.has component_registry n ≡ true) e refl
memory_registered (vectors m) c e = subst (λ n. Dict.has component_registry n ≡ true) e refl
memory_registered (MemoryStructure.layered m) c e =
    subst (λ n. Dict.has component_registry n ≡ true) e refl

-- Every component that a spec with its adapters declares is in the registry.
pub Declares-registered :
    {F : Type 0} (s : SpecSections F) (c : String)
    → All IsAdapted s.channels
    → Declares s c
    → Dict.has component_registry c ≡ true
unfolding component_registry Dict.get
Declares-registered s c b d =
    let at = λ (n : String) (e : n ≡ c) (h : Dict.has component_registry n ≡ true).
      subst (λ m. Dict.has component_registry m ≡ true) e h in
    elim d [
      | Declares.assembler e ↦ at _ e refl
      | Declares.channel ch i e ↦
          at _ e (adapter_registered ch (All-In IsAdapted s.channels ch b i))
      | Declares.queue e ↦ at _ e (queue_registered s.gateway.queue)
      | Declares.storage e ↦ at _ e (storage_registered s.persistence.tier)
      | Declares.history h e f ↦ at _ f refl
      | Declares.memory m e f ↦ memory_registered m.structure c f
      | Declares.provider e ↦ at _ e (provider_registered s.models.provider)
      | Declares.tier t i e ↦ at _ e (provider_registered t.provider)
      | Declares.router o f ↦ at _ f refl
      | Declares.audit e ↦ at _ e refl
      | Declares.events a f ↦ at _ f refl
      | Declares.schedules a f ↦ at _ f refl
      | Declares.local_tools v i e f ↦ at _ f refl
      | Declares.mcp_manager v i e f ↦ at _ f refl
    ]
