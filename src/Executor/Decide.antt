-- ===== src/Executor/Decide.antt =====
-- `ToolExecutor.pending` and `resolve`: the queryable view of parked calls, and their decision.
use agent_keep.Base.{
  String, Bool, true, false, ◌||◌, Option, none, some, List, [], ◌∷◌, Result, ok, err, concat,
  str_eq, if◌then◌else◌,
}
use agent_keep.Base.Dict
use agent_keep.Base.Dict.{Dict}
use agent_keep.Audit.{Approval, Status}
use agent_keep.Executor.Types.{
  Host, ToolResult, GrantedTool, CallState, PendingCall, Executor, Error, value_error, pending_call,
  already_decided, key_error,
}
use agent_keep.Executor.Calls.{record_tool_call, run_tool}

pub record PendingView (V : Type 0) : Type 0 where
  pub call_id : String
  pub tool : String
  pub arguments : Dict V
  pub requested_at : String
  pub state : CallState

abbrev pub is_pending : CallState → Bool
is_pending CallState.pending = true
is_pending CallState.approved = false
is_pending CallState.denied = false

abbrev pub view : {V : Type 0} → PendingCall V → PendingView V
view entry = record {
  call_id = entry.call_id;
  tool = entry.call.name;
  arguments = entry.arguments;
  requested_at = entry.requested_at;
  state = entry.state;
}

unfoldable pub undecided : {V : Type 0} → Dict (PendingCall V) → List (PendingView V)
undecided [] = []
undecided ((i, entry) ∷ entries) =
    let rest = undecided entries in if is_pending entry.state then view entry ∷ rest else rest

unfoldable pub pending : {V W : Type 0} → Executor V W → List (PendingView V)
unfolding undecided
pending x = undecided x.pending

pub data Decision : Type 0 where
  approve deny : Decision

abbrev pub state_name : CallState → String
state_name CallState.pending = "pending"
state_name CallState.approved = "approved"
state_name CallState.denied = "denied"

-- `not text or not text.strip()`
abbrev pub is_blank : {V : Type 0} → Host V → String → Bool
is_blank host text = str_eq text "" || str_eq (host.strip text) ""

abbrev pub by_human : String → Approval
by_human decided_by = record { required = true; decided_by = decided_by }

module _ {V W : Type 0} where
  -- `entry.state = ...; entry.decided_by = ...`, written through to the registry of parked calls.
  abbrev pub mark : Executor V W → String → PendingCall V → CallState → String → Executor V W
  mark x i entry state decided_by = record x {
    pending = Dict.put x.pending i (record entry { state = state; decided_by = some decided_by });
  }

  -- `entry.result = result`
  abbrev pub settle :
      String
      → PendingCall V
      → CallState
      → String
      → Executor V W × ToolResult
      → Executor V W × Result Error ToolResult
  settle i entry state decided_by (y, result) = (
    record y {
      pending =
          Dict.put y.pending i
            (record entry { state = state; decided_by = some decided_by; result = some result });
    },
    ok result,
  )

module _ {V W : Type 0} (host : Host V) where
  -- An undecided call whose tool has been found.
  unfoldable pub decide :
      Executor V W
      → String
      → PendingCall V
      → GrantedTool V W
      → Decision
      → String
      → Executor V W × Result Error ToolResult
  decide x i entry tool deny decided_by = settle i entry CallState.denied decided_by (
    record_tool_call host (mark x i entry CallState.denied decided_by) entry.call.name
        entry.arguments entry.trigger Status.denied (by_human decided_by) none,
    record {
      call_id = entry.call.id;
      name = entry.call.name;
      status = Status.denied;
      output = concat ("denied by " ∷ decided_by ∷ []);
    },
  )
  decide x i entry tool approve decided_by = settle i entry CallState.approved decided_by (
      run_tool host (mark x i entry CallState.approved decided_by) tool entry.call entry.arguments
        entry.trigger (by_human decided_by))

  -- `self._tools[entry.call.name]`
  unfoldable pub with_tool :
      Executor V W
      → String
      → PendingCall V
      → Decision
      → String
      → Option (GrantedTool V W)
      → Executor V W × Result Error ToolResult
  with_tool x i entry decision decided_by none = (x, err (key_error entry.call.name))
  with_tool x i entry decision decided_by (some tool) = decide x i entry tool decision decided_by

  unfoldable pub with_entry :
      Executor V W
      → String
      → Decision
      → String
      → Option (PendingCall V)
      → Executor V W × Result Error ToolResult
  with_entry x i decision decided_by none =
      (x, err (pending_call (concat ("no pending call with id " ∷ host.repr i ∷ []))))
  with_entry x i decision decided_by (some entry) =
      if is_pending entry.state
      then with_tool x i entry decision decided_by (Dict.get x.tools entry.call.name)
      else (
        x,
        err (
            already_decided
              (concat ("call " ∷ host.repr i ∷ " was already " ∷ state_name entry.state ∷ []))),
      )

  unfoldable pub resolve :
      Executor V W → String → Decision → String → Executor V W × Result Error ToolResult
  resolve x i decision decided_by =
      if is_blank host decided_by
      then (x, err (value_error "decided_by must identify the deciding user"))
      else with_entry x i decision decided_by (Dict.get x.pending i)
