-- ===== src/Executor/Audited.antt =====
-- What the operations of the executor write to the audit sink, and which of them reach a tool.
use agent_keep.Base.{
  String, true, false, ◌≡◌, refl, ◌⊎◌, inl, inr, Option, none, some, ok, arith, contains,
  sort_names, is_empty, not, if_elim, Option_elim, is_empty-sort_names,
}
use agent_keep.Base.Dict
use agent_keep.Base.Dict.{Dict}
use agent_keep.Audit.{Trigger, Approval, AuditRecord, Status, Event, append, event_blocks, AuditLog}
use agent_keep.Executor.Types.{
  Host, ToolCallRequest, ToolResult, RunResult, returned, refused, failed, GrantedTool, Executor,
  pins_of,
}
use agent_keep.Executor.Calls.{
  record_tool_call, finish_run, run_tool, deny_call, park, granted_call, dispatch, execute,
  overridden_keys, by_policy,
}

-- From one sink to the other one record was appended, and it passes the record's validator.
abbrev pub Adds : AuditLog → AuditLog → Trigger → Event → Status → Option Approval → Type 0
Adds before after trigger event status approval =
    (r : AuditRecord) × (after ≡ append before r)
    × (r.trigger ≡ trigger)
    × (r.event ≡ event)
    × (r.outcome.status ≡ status)
    × (r.approval ≡ approval)
    × (event_blocks r ≡ true)

module _ {V W : Type 0} (host : Host V) where
  pub record_tool_call-Adds :
      (x : Executor V W) (name : String) (arguments : Dict V) (trigger : Trigger) (status : Status)
      (approval : Approval) (output : Option String)
      → Adds x.sink
          (record_tool_call host x name arguments trigger status approval output).sink
          trigger
          Event.tool_call
          status
          (some approval)
  unfolding record_tool_call event_blocks
  record_tool_call-Adds x name arguments trigger status approval output =
      (_, refl, refl, refl, refl, refl, refl)

  pub finish_run-Adds :
      (x : Executor V W) (tool : GrantedTool V W) (call : ToolCallRequest V) (arguments : Dict V)
      (trigger : Trigger) (approval : Approval) (r : RunResult)
      → let (y, result) = finish_run host x tool call arguments trigger approval r in
        Adds x.sink y.sink trigger Event.tool_call result.status (some approval)
  unfolding finish_run
  finish_run-Adds x tool call arguments trigger approval (returned text) =
      record_tool_call-Adds x tool.name arguments trigger Status.ok approval (some text)
  finish_run-Adds x tool call arguments trigger approval (refused text) =
      record_tool_call-Adds x tool.name arguments trigger Status.denied approval none
  finish_run-Adds x tool call arguments trigger approval (failed text) =
      record_tool_call-Adds x tool.name arguments trigger Status.error approval none

  pub finish_run-world :
      (x : Executor V W) (tool : GrantedTool V W) (call : ToolCallRequest V) (arguments : Dict V)
      (trigger : Trigger) (approval : Approval) (r : RunResult)
      → let y = (finish_run host x tool call arguments trigger approval r).0 in
        (y.world ≡ x.world)
        × (y.tools ≡ x.tools)
        × (y.pending ≡ x.pending)
        × (y.auto_approve ≡ x.auto_approve)
        × (y.identity ≡ x.identity)
  unfolding finish_run record_tool_call
  finish_run-world x tool call arguments trigger approval (returned text) =
      (refl, refl, refl, refl, refl)
  finish_run-world x tool call arguments trigger approval (refused text) =
      (refl, refl, refl, refl, refl)
  finish_run-world x tool call arguments trigger approval (failed text) =
      (refl, refl, refl, refl, refl)

  pub run_tool-Adds :
      (x : Executor V W) (tool : GrantedTool V W) (call : ToolCallRequest V) (arguments : Dict V)
      (trigger : Trigger) (approval : Approval)
      → let (y, result) = run_tool host x tool call arguments trigger approval in
        Adds x.sink y.sink trigger Event.tool_call result.status (some approval)
  unfolding run_tool
  run_tool-Adds x tool call arguments trigger approval =
      finish_run-Adds (record x { world = (tool.run arguments x.world).1 }) tool call arguments
        trigger approval (tool.run arguments x.world).0

  -- A run leaves everything but the world and the sink as it was, and hands on the tool's world.
  pub run_tool-world :
      (x : Executor V W) (tool : GrantedTool V W) (call : ToolCallRequest V) (arguments : Dict V)
      (trigger : Trigger) (approval : Approval)
      → let y = (run_tool host x tool call arguments trigger approval).0 in
        (y.world ≡ (tool.run arguments x.world).1)
        × (y.tools ≡ x.tools)
        × (y.pending ≡ x.pending)
        × (y.auto_approve ≡ x.auto_approve)
        × (y.identity ≡ x.identity)
  unfolding run_tool
  run_tool-world x tool call arguments trigger approval =
      finish_run-world (record x { world = (tool.run arguments x.world).1 }) tool call arguments
        trigger approval (tool.run arguments x.world).0

  -- The status of a call: not run, parked, or as the tool's own code ended.
  abbrev pub IsAudited : Executor V W → Trigger → Executor V W × ToolResult → Type 0
  IsAudited x trigger (y, result) =
      Adds x.sink y.sink trigger Event.tool_call result.status (some by_policy)
      ⊎ ((result.status ≡ Status.pending_approval)
          × Adds x.sink y.sink trigger Event.approval Status.pending_approval none)

  deny_call-IsAudited :
      (x : Executor V W) (call : ToolCallRequest V) (trigger : Trigger) (output : String)
      → IsAudited x trigger (deny_call host x call trigger output)
  unfolding deny_call
  deny_call-IsAudited x call trigger output =
      inl (record_tool_call-Adds x call.name call.arguments trigger Status.denied by_policy none)

  park-IsAudited :
      (fresh now : String) (x : Executor V W) (call : ToolCallRequest V) (arguments : Dict V)
      (trigger : Trigger)
      → IsAudited x trigger (park host fresh now x call arguments trigger)
  unfolding park event_blocks
  park-IsAudited fresh now x call arguments trigger =
      inr (refl, (_, refl, refl, refl, refl, refl, refl))

  -- Every property of `execute` follows from its four ends.
  module _ {κ} (P : Executor V W × ToolResult → Type κ) where
    granted_cases :
        (fresh now : String) (x : Executor V W) (tool : GrantedTool V W) (call : ToolCallRequest V)
        (trigger : Trigger)
        → (is_empty (overridden_keys host.same call.arguments (pins_of tool)) ≡ false
            → (output : String) → P (deny_call host x call trigger output))
        → (contains x.auto_approve call.name ≡ true
            → P (
                run_tool host x tool call
                  (Dict.merge call.arguments (pins_of tool))
                  trigger
                  by_policy))
        → (contains x.auto_approve call.name ≡ false
            → P (park host fresh now x call (Dict.merge call.arguments (pins_of tool)) trigger))
        → P (granted_call host fresh now x tool call trigger)
    unfolding granted_call
    granted_cases fresh now x tool call trigger refuse go wait =
        let o = overridden_keys host.same call.arguments (pins_of tool) in
        if_elim P (not (is_empty (sort_names o))) _ _
          (λ e. refuse (ground (arith, is_empty-sort_names o)) _)
          (λ _. if_elim P (contains x.auto_approve call.name) _ _ go wait)

    pub execute_cases :
        (fresh now : String) (x : Executor V W) (call : ToolCallRequest V) (trigger : Trigger)
        → ((output : String) → P (deny_call host x call trigger output))
        → ((tool : GrantedTool V W)
            → Dict.get x.tools call.name ≡ some tool
            → contains x.auto_approve call.name ≡ true
            → P (
                run_tool host x tool call
                  (Dict.merge call.arguments (pins_of tool))
                  trigger
                  by_policy))
        → ((tool : GrantedTool V W)
            → Dict.get x.tools call.name ≡ some tool
            → contains x.auto_approve call.name ≡ false
            → P (park host fresh now x call (Dict.merge call.arguments (pins_of tool)) trigger))
        → P (dispatch host fresh now x call trigger (Dict.get x.tools call.name))
    unfolding dispatch
    execute_cases fresh now x call trigger refuse go wait =
        Option_elim (λ o. P (dispatch host fresh now x call trigger o)) (Dict.get x.tools call.name)
          (λ _. refuse _)
          (λ tool e.
            granted_cases fresh now x tool call trigger (λ _. refuse) (go tool e) (wait tool e))

  dispatch-IsAudited :
      (fresh now : String) (x : Executor V W) (call : ToolCallRequest V) (trigger : Trigger)
      → IsAudited x trigger (dispatch host fresh now x call trigger (Dict.get x.tools call.name))
  dispatch-IsAudited fresh now x call trigger =
      execute_cases (IsAudited x trigger) fresh now x call trigger
        (deny_call-IsAudited x call trigger)
        (λ tool _ _. inl (run_tool-Adds x tool call _ trigger by_policy))
        (λ tool _ _. park-IsAudited fresh now x call _ trigger)

  -- A call without a trigger raises and changes nothing. Any other call returns, and appends exactly
  -- one record, which carries the call's trigger and passes the record's validator: a `tool_call`
  -- with the status that the model is told, decided by the policy, or the `approval` record of a
  -- parked call.
  pub execute-IsAudited :
      (fresh now : String) (x : Executor V W) (call : ToolCallRequest V) (trigger : Trigger)
      → ((execute host fresh now x call none).0 ≡ x)
        × (result : ToolResult) × ((execute host fresh now x call (some trigger)).1 ≡ ok result)
        × IsAudited x trigger ((execute host fresh now x call (some trigger)).0, result)
  unfolding execute
  execute-IsAudited fresh now x call trigger =
      (refl, _, refl, dispatch-IsAudited fresh now x call trigger)
