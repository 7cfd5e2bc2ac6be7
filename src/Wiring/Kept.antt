-- ===== src/Wiring/Kept.antt =====
-- Sessions, persona, memory, storage, health: what `unimplemented_selections` reports nothing about.
use agent_keep.Base.{
  true, not, Option, none, some, ◌≡◌, ◌≢◌, ◌↔◌, refl, is_empty, eq_of_some, both_empty, contains,
  str_eq, eq_iff,
}
use agent_keep.Spec.Check.{Optionally}
use agent_keep.Spec.Intake.{PersonaSource}
use agent_keep.Spec.State.{
  History, sliding_window, summarization, retrieval, Definition, VectorStore, Corpus,
  MemoryStructure, facts, vectors, WritePolicy, Memory, HealthConfig, StorageTier,
  write_policy_name,
}
use agent_keep.Wiring.Tables.{
  buildable_session_definitions, buildable_history_strategies, buildable_persistence_tiers,
  buildable_memory_corpora, buildable_memory_write_policies,
}
use agent_keep.Wiring.Guards.{
  Missing, missing_if, definition_missing, is_postgres, history_missing, is_static,
  corpus_is_buildable, is_pgvector, structure_missing, memory_missing, health_missing,
  storage_missing,
}
use agent_keep.Wiring.Reports.{buildable_iff, guarded_iff, optional_missing_iff}

-- A history that the storage can serve.
abbrev pub IsServed : StorageTier → History → Type 0
IsServed tier (sliding_window h) = Unit
IsServed tier (summarization h) = ⊥
IsServed tier (retrieval h) = tier ≡ StorageTier.postgres
IsServed tier (History.layered h) = ⊥

-- A memory that is written the way its store is guarded.
abbrev pub IsWritten : WritePolicy → MemoryStructure → Type 0
IsWritten policy facts = policy ≡ WritePolicy.user_command
IsWritten policy (vectors m) =
    (m.store ≡ VectorStore.pgvector)
    × ((m.corpus ≡ some Corpus.agent_summaries) × (policy ≢ WritePolicy.user_command))
IsWritten policy (MemoryStructure.layered m) = ⊥

pub static_iff : (s : PersonaSource) → (is_static s ≡ true) ↔ (s ≡ PersonaSource.static)
static_iff PersonaSource.static = (λ h. refl, λ h. refl)
static_iff PersonaSource.learned = (λ h. cc, λ h. cc)
static_iff PersonaSource.both = (λ h. cc, λ h. cc)

pub postgres_iff : (t : StorageTier) → (is_postgres t ≡ true) ↔ (t ≡ StorageTier.postgres)
postgres_iff StorageTier.files = (λ h. cc, λ h. cc)
postgres_iff StorageTier.sqlite = (λ h. cc, λ h. cc)
postgres_iff StorageTier.postgres = (λ h. refl, λ h. refl)

pub storage_missing_iff :
    (t : StorageTier) → (is_empty (storage_missing t) ≡ true) ↔ (t ≢ StorageTier.files)
unfolding storage_missing buildable_persistence_tiers contains
storage_missing_iff StorageTier.files = (λ h. cc, λ n. absurd (n refl))
storage_missing_iff StorageTier.sqlite = (λ h q. cc, λ h. refl)
storage_missing_iff StorageTier.postgres = (λ h q. cc, λ h. refl)

pub definition_missing_iff :
    (o : Option Definition)
    → (is_empty (definition_missing o) ≡ true) ↔ (o ≢ some Definition.hybrid)
unfolding buildable_session_definitions contains
definition_missing_iff none = (λ h q. cc, λ h. refl)
definition_missing_iff (some Definition.per_channel) =
    (λ h q. absurd (cc (eq_of_some q)), λ h. refl)
definition_missing_iff (some Definition.per_user) = (λ h q. absurd (cc (eq_of_some q)), λ h. refl)
definition_missing_iff (some Definition.hybrid) = (λ h. absurd (cc h), λ n. absurd (n refl))

pub history_missing_iff :
    (t : StorageTier) (o : Option History)
    → (is_empty (history_missing t o) ≡ true) ↔ Optionally (IsServed t) o
unfolding buildable_history_strategies contains
history_missing_iff t none = (λ h. tt, λ h. refl)
history_missing_iff t (some (sliding_window h)) = (λ e. tt, λ e. refl)
history_missing_iff t (some (summarization h)) = (λ e. cc, λ e. absurd e)
history_missing_iff t (some (retrieval h)) =
    buildable_iff (is_postgres t) (Missing.retrieval_on_tier t) (postgres_iff t)
history_missing_iff t (some (History.layered h)) = (λ e. cc, λ e. absurd e)

pub facts_iff :
    (p : WritePolicy)
    → (is_empty (structure_missing p facts) ≡ true) ↔ (p ≡ WritePolicy.user_command)
facts_iff WritePolicy.user_command = (λ h. refl, λ h. refl)
facts_iff WritePolicy.agent_autonomous = (λ h. cc, λ h. cc)
facts_iff WritePolicy.off = (λ h. cc, λ h. cc)

pub pgvector_iff : (v : VectorStore) → (is_pgvector v ≡ true) ↔ (v ≡ VectorStore.pgvector)
pgvector_iff VectorStore.sqlite_vec = (λ h. cc, λ h. cc)
pgvector_iff VectorStore.pgvector = (λ h. refl, λ h. refl)

pub corpus_iff :
    (o : Option Corpus) → (corpus_is_buildable o ≡ true) ↔ (o ≡ some Corpus.agent_summaries)
unfolding buildable_memory_corpora contains
corpus_iff none = (λ h. cc, λ h. cc)
corpus_iff (some Corpus.agent_summaries) = (λ h. refl, λ h. refl)
corpus_iff (some Corpus.transcripts) = (λ h. cc, λ h. absurd (cc (eq_of_some h)))
corpus_iff (some Corpus.documents) = (λ h. cc, λ h. absurd (cc (eq_of_some h)))

pub write_policy_iff :
    (p : WritePolicy)
    → (contains buildable_memory_write_policies (write_policy_name p) ≡ true)
      ↔ (p ≢ WritePolicy.user_command)
unfolding buildable_memory_write_policies contains
write_policy_iff WritePolicy.user_command = (λ h. cc, λ n. absurd (n refl))
write_policy_iff WritePolicy.agent_autonomous = (λ h q. cc, λ h. refl)
write_policy_iff WritePolicy.off = (λ h q. cc, λ h. refl)

pub structure_missing_iff :
    (p : WritePolicy) (m : MemoryStructure)
    → (is_empty (structure_missing p m) ≡ true) ↔ IsWritten p m
structure_missing_iff p facts = facts_iff p
structure_missing_iff p (vectors m) =
    guarded_iff (is_pgvector m.store) (Missing.vector_store m.store) _ (pgvector_iff m.store) (
      both_empty (missing_if (not (corpus_is_buildable m.corpus)) (Missing.memory_corpus m.corpus))
        _ (buildable_iff (corpus_is_buildable m.corpus) _ (corpus_iff m.corpus))
        (buildable_iff (contains buildable_memory_write_policies (write_policy_name p)) _
          (write_policy_iff p)))
structure_missing_iff p (MemoryStructure.layered m) = (λ h. cc, λ h. absurd h)

abbrev pub IsKept : Memory → Type 0
IsKept m = IsWritten m.write_policy m.structure

pub memory_missing_iff :
    (o : Option Memory) → (is_empty (memory_missing o) ≡ true) ↔ Optionally IsKept o
memory_missing_iff o =
    optional_missing_iff IsKept memory_missing refl
      (λ m. structure_missing_iff m.write_policy m.structure) o

abbrev pub IsHealth : HealthConfig → Type 0
IsHealth h = h.path ≡ "/healthz"

pub health_missing_iff :
    (o : Option HealthConfig) → (is_empty (health_missing o) ≡ true) ↔ Optionally IsHealth o
health_missing_iff o =
    optional_missing_iff IsHealth health_missing refl
      (λ h. buildable_iff (str_eq h.path "/healthz") _ (eq_iff h.path "/healthz")) o
