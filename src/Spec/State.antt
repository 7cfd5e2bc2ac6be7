-- ===== src/Spec/State.antt =====
-- keep_spec/models.py: sessions, memory, persistence, observability.
use agent_keep.Base.{ℕ, String, Bool, Option}

pub record SlidingWindowHistory : Type 0 where
  pub max_turns : ℕ

pub record SummarizationHistory : Type 0 where
  pub summarize_after_turns : ℕ

pub record RetrievalHistory : Type 0 where
  pub top_k : ℕ

pub record LayeredHistory : Type 0 where
  pub window_turns : ℕ
  pub summarize : Bool
  pub retrieval_top_k : ℕ

-- `History`, told apart by `strategy`.
pub data History : Type 0 where
  sliding_window : SlidingWindowHistory → History
  summarization : SummarizationHistory → History
  retrieval : RetrievalHistory → History
  layered : LayeredHistory → History

pub data SessionMode : Type 0 where
  single : SessionMode

pub data Definition : Type 0 where
  per_channel per_user hybrid : Definition

pub record Sessions : Type 0 where
  pub mode : SessionMode
  pub definition : Option Definition
  pub history : Option History

pub data VectorStore : Type 0 where
  sqlite_vec pgvector : VectorStore

pub data Corpus : Type 0 where
  agent_summaries transcripts documents : Corpus

pub record VectorMemory : Type 0 where
  pub store : VectorStore
  pub corpus : Option Corpus

-- `MemoryStructure`, told apart by `kind`. The store of `facts` is always "none".
pub data MemoryStructure : Type 0 where
  facts : MemoryStructure
  vectors : VectorMemory → MemoryStructure
  layered : VectorMemory → MemoryStructure

pub data WritePolicy : Type 0 where
  user_command agent_autonomous off : WritePolicy

pub record Memory : Type 0 where
  pub structure : MemoryStructure
  pub write_policy : WritePolicy

pub data Sink : Type 0 where
  jsonl : Sink

pub record AuditConfig : Type 0 where
  pub sink : Sink
  pub path : String

pub record HealthConfig : Type 0 where
  pub path : String

pub data LogLevel : Type 0 where
  debug info warning error : LogLevel

pub record Observability : Type 0 where
  pub audit : AuditConfig
  pub log_level : LogLevel
  pub health : Option HealthConfig

-- `Persistence.tier`
pub data StorageTier : Type 0 where
  files sqlite postgres : StorageTier

pub record Persistence : Type 0 where
  pub tier : StorageTier

-- The text that the schema writes for each choice.
abbrev pub strategy_name : History → String
strategy_name (sliding_window h) = "sliding-window"
strategy_name (summarization h) = "summarization"
strategy_name (retrieval h) = "retrieval"
strategy_name (layered h) = "layered"

abbrev pub definition_name : Definition → String
definition_name per_channel = "per-channel"
definition_name per_user = "per-user"
definition_name hybrid = "hybrid"

abbrev pub session_mode : SessionMode → String
session_mode single = "single"

abbrev pub corpus_name : Corpus → String
corpus_name agent_summaries = "agent-summaries"
corpus_name transcripts = "transcripts"
corpus_name documents = "documents"

abbrev pub write_policy_name : WritePolicy → String
write_policy_name user_command = "user-command"
write_policy_name agent_autonomous = "agent-autonomous"
write_policy_name off = "off"

abbrev pub sink_name : Sink → String
sink_name jsonl = "jsonl"

abbrev pub storage_name : StorageTier → String
storage_name files = "files"
storage_name sqlite = "sqlite"
storage_name postgres = "postgres"
