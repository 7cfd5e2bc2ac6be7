-- ===== src/Executor/Types.antt =====
-- The data of executor.py and of the request types of agent_runtime/provider.py.
use agent_keep.Base.{String, Bool, Option, none, some, List, []}
use agent_keep.Base.Dict.{Dict}
use agent_keep.Audit.{AgentIdentity, Trigger, Status, AuditRecord}

-- What the executor takes from Python's standard library, for argument values of type `V`: `==`,
-- canonical JSON, sha256, `repr` of a list of texts and of a text, `str.strip`.
pub record Host (V : Type 0) : Type 0 where
  pub same : V → V → Bool
  pub dumps : Dict V → String
  pub sha256 : String → String
  pub repr_list : List String → String
  pub repr : String → String
  pub strip : String → String

pub record ToolCallRequest (V : Type 0) : Type 0 where
  pub id : String
  pub name : String
  pub arguments : Dict V

pub record ToolResult : Type 0 where
  pub call_id : String
  pub name : String
  pub status : Status
  pub output : String

pub record ToolDescriptor (V : Type 0) : Type 0 where
  pub name : String
  pub description : String
  pub parameters : Dict V

-- How a tool's `run` ends: with text, with `ToolDeniedError`, with another exception.
pub data RunResult : Type 0 where
  returned refused failed : String → RunResult

pub record GrantedTool (V W : Type 0) : Type 0 where
  pub name : String
  pub scope : String
  pub description : String
  pub parameters : Dict V
  pub constraints : Option (Dict V)
  pub run : Dict V → W → RunResult × W

pub data CallState : Type 0 where
  pending approved denied : CallState

pub record PendingCall (V : Type 0) : Type 0 where
  pub call_id : String
  pub call : ToolCallRequest V
  pub arguments : Dict V
  pub trigger : Trigger
  pub requested_at : String
  pub state : CallState
  pub decided_by : Option String
  pub result : Option ToolResult

pub record Executor (V W : Type 0) : Type 0 where
  pub identity : AgentIdentity
  pub sink : List AuditRecord
  pub closers : List (W → W)
  pub tools : Dict (GrantedTool V W)
  pub auto_approve : List String
  pub pending : Dict (PendingCall V)
  pub world : W

-- The exceptions that the methods raise, with their texts.
pub data Error : Type 0 where
  trigger_refused value_error pending_call already_decided key_error : String → Error

-- `tool.constraints or {}`
abbrev pub pins_of : {V W : Type 0} → GrantedTool V W → Dict V
pins_of tool = elim tool.constraints [ none ↦ [] | some pins ↦ pins ]
