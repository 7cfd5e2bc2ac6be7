-- ===== src/Wiring/Tabled.antt =====
-- The lookups of `select_components` in its tables, of specs that can be built.
use agent_keep.Base.{
  String, true, List, [], ◌∷◌, ◌++◌, ◌≡◌, refl, map, ok, All, inl, inr, Option-cases,
}
use agent_keep.Base.Dict
use agent_keep.Base.Dict.{Dict}
use agent_keep.Spec.Intake.{
  Channel, dev_http, discord, slack, webex, sms, Queue, channel_type, queue_name,
}
use agent_keep.Spec.State.{Sink, sink_name, StorageTier}
use agent_keep.Spec.Providers.{Provider, ModelTier, provider_name}
use agent_keep.Spec.Sections.{SpecSections}
use agent_keep.Wiring.Tables.{
  channel_components, queue_components, provider_components, audit_components,
}
use agent_keep.Wiring.Targets.{◌>>=◌}
use agent_keep.Wiring.Select.{lookup, lookups, storage_component, table_components}
use agent_keep.Wiring.Adapted.{IsAdapted}
use agent_keep.Wiring.Buildable.{IsBuildable}

-- The component of each choice; a channel without an adapter is never looked up.
abbrev pub adapter_name : Channel → String
adapter_name (dev_http c) = "dev-http-channel"
adapter_name (discord c) = ""
adapter_name (slack c) = "slack-channel"
adapter_name (webex c) = "webex-channel"
adapter_name (sms c) = ""

abbrev pub queue_component : Queue → String
queue_component Queue.in_process = "in-process-queue"
queue_component Queue.redis = "redis-queue"

abbrev pub provider_component : Provider → String
provider_component Provider.static = "static-provider"
provider_component Provider.anthropic = "anthropic-provider"
provider_component Provider.ollama = "ollama-provider"
provider_component Provider.openai = "openai-provider"

abbrev pub database_component : StorageTier → String
database_component StorageTier.files = "sqlite-persistence"
database_component StorageTier.sqlite = "sqlite-persistence"
database_component StorageTier.postgres = "postgres-persistence"

pub storage_component-database : (t : StorageTier) → storage_component t ≡ database_component t
storage_component-database StorageTier.files = refl
storage_component-database StorageTier.sqlite = refl
storage_component-database StorageTier.postgres = refl

lookup-channel :
    (c : Channel) → IsAdapted c → lookup channel_components (channel_type c) ≡ ok (adapter_name c)
unfolding lookup channel_components Dict.get
lookup-channel (dev_http c) h = refl
lookup-channel (discord c) h = absurd h
lookup-channel (slack c) h = refl
lookup-channel (webex c) h = refl
lookup-channel (sms c) h = absurd h

lookup-queue : (q : Queue) → lookup queue_components (queue_name q) ≡ ok (queue_component q)
unfolding lookup queue_components Dict.get
lookup-queue Queue.in_process = refl
lookup-queue Queue.redis = refl

lookup-provider :
    (p : Provider) → lookup provider_components (provider_name p) ≡ ok (provider_component p)
unfolding lookup provider_components Dict.get
lookup-provider Provider.static = refl
lookup-provider Provider.anthropic = refl
lookup-provider Provider.ollama = refl
lookup-provider Provider.openai = refl

lookup-sink : (s : Sink) → lookup audit_components (sink_name s) ≡ ok "jsonl-audit"
unfolding lookup audit_components Dict.get
lookup-sink Sink.jsonl = refl

lookups-channels :
    (cs : List Channel)
    → All IsAdapted cs
    → lookups channel_components (map channel_type cs) ≡ ok (map adapter_name cs)
unfolding lookups ◌>>=◌
lookups-channels [] h = refl
lookups-channels (c ∷ cs) h = rw (lookup-channel c h.0, lookups-channels cs h.1) refl

lookups-tiers :
    {F : Type 0} (ts : List (ModelTier F))
    → lookups provider_components (map (λ t. provider_name t.provider) ts)
      ≡ ok (map (λ t. provider_component t.provider) ts)
unfolding lookups ◌>>=◌
lookups-tiers [] = refl
lookups-tiers (t ∷ ts) = rw (lookup-provider t.provider, lookups-tiers ts) refl

-- What the tables give.
abbrev pub tabled : {F : Type 0} → SpecSections F → List String
tabled s =
    map adapter_name s.channels
    ++ queue_component s.gateway.queue
      ∷ provider_component s.models.provider
      ∷ map (λ t. provider_component t.provider) s.models.tiers
    ++ "jsonl-audit" ∷ []

pub table_components-tabled :
    {F : Type 0} (known : List String) (s : SpecSections F)
    → IsBuildable known s
    → table_components s ≡ ok (tabled s)
unfolding table_components ◌>>=◌
table_components-tabled known s b =
    rw
      (
        lookups-channels s.channels b.channels,
        lookup-queue s.gateway.queue,
        lookup-provider s.models.provider,
        lookups-tiers s.models.tiers,
        lookup-sink s.observability.audit.sink,
      )
      refl

-- A lookup of every key that a table has.
pub lookups_total :
    (table : Dict String) (keys : List String)
    → All (λ k. Dict.has table k ≡ true) keys
    → (values : List String) × (lookups table keys ≡ ok values)
unfolding lookups lookup ◌>>=◌
lookups_total table [] h = ([], refl)
lookups_total table (k ∷ ks) h =
    let (vs, e) = lookups_total table ks h.1 in
    elim (Option-cases (Dict.get table k)) [
      | inl n ↦ absurd (cc (rw (Dict.has, n) at (h.0)))
      | inr (v, q) ↦ (v ∷ vs, rw (q, e) refl)
    ]
