-- ===== src/Executor/Calls.antt =====
-- `ToolExecutor.__init__`, `close`, `visible_tools`, `execute`, `_run` and `_record_tool_call`.
use mathlib.Core.List.{foldl}
use agent_keep.Base.{
  String, Bool, false, not, Option, none, some, List, [], ◌∷◌, map, Result, ok, err, is_empty,
  contains, concat, join, sort_names, if◌then◌else◌,
}
use agent_keep.Base.Dict
use agent_keep.Base.Dict.{Dict}
use agent_keep.Audit.{AgentIdentity, Trigger, Approval, AuditLog, Status, Event, append}
use agent_keep.Executor.Types.{
  Host, ToolCallRequest, ToolResult, ToolDescriptor, RunResult, returned, refused, failed,
  GrantedTool, CallState, Executor, Error, trigger_refused, value_error, pins_of,
}

abbrev pub policy_auto : String
policy_auto = "policy:auto"

-- `Approval(required=False, decided_by=POLICY_AUTO)`
abbrev pub by_policy : Approval
by_policy = record { required = false; decided_by = policy_auto }

-- The loop of the constructor over `tools`.
unfoldable pub register :
    {V W : Type 0}
    → Dict (GrantedTool V W)
    → List (GrantedTool V W)
    → Result Error (Dict (GrantedTool V W))
register registry [] = ok registry
register registry (tool ∷ rest) =
    let next = register (Dict.put registry tool.name tool) rest in
    if Dict.has registry tool.name
    then err
        (value_error (concat ("duplicate tool name in the registry: '" ∷ tool.name ∷ "'" ∷ [])))
    else next

-- `set(names) - set(registry)`, of which only the sorted list is used.
unfoldable pub without_names : {A : Type 0} → Dict A → List String → List String
without_names registry [] = []
without_names registry (n ∷ ns) =
    let rest = without_names registry ns in
    if Dict.has registry n then rest else if contains rest n then rest else n ∷ rest

-- The names of the pins that a call sets to another value.
unfoldable pub overridden_keys : {V : Type 0} → (V → V → Bool) → Dict V → Dict V → List String
overridden_keys same arguments [] = []
overridden_keys same arguments ((key, pin) ∷ pins) =
    let rest = overridden_keys same arguments pins in
    elim (Dict.get arguments key) [
      | none ↦ rest
      | some given ↦ if same given pin then rest else key ∷ rest
    ]

-- `{k: v for k, v in parameters.items() if k not in pins}`
unfoldable pub unpinned : {V : Type 0} → Dict V → Dict V → Dict V
unpinned pins [] = []
unpinned pins ((k, v) ∷ parameters) =
    let rest = unpinned pins parameters in if Dict.has pins k then rest else (k, v) ∷ rest

unfoldable pub arguments_digest : {V : Type 0} → Host V → Dict V → String
arguments_digest host arguments = concat ("sha256:" ∷ host.sha256 (host.dumps arguments) ∷ [])

unfoldable pub arguments_summary : {V : Type 0} → String → Dict V → String
arguments_summary name arguments =
    let names = sort_names (Dict.keys arguments) in
    concat (
      "tool call "
      ∷ name
      ∷ "; argument(s): "
      ∷ (if is_empty names then "none" else join ", " names)
      ∷ [])

module _ {V W : Type 0} (host : Host V) where
  -- The constructor, from the outcome of its loop over the tools.
  unfoldable pub make_with :
      AgentIdentity
      → AuditLog
      → List String
      → List (W → W)
      → W
      → Result Error (Dict (GrantedTool V W))
      → Result Error (Executor V W)
  make_with identity sink auto_approve closers world (err e) = err e
  make_with identity sink auto_approve closers world (ok registry) =
      let undeclared = sort_names (without_names registry auto_approve) in
      if is_empty undeclared
      then ok (record {
        identity = identity;
        sink = sink;
        closers = closers;
        tools = registry;
        auto_approve = auto_approve;
        pending = [];
        world = world;
      })
      else err (
          value_error
            (concat ("autoApprove names ungranted tool(s): " ∷ host.repr_list undeclared ∷ [])))

  unfoldable pub make :
      AgentIdentity
      → AuditLog
      → List (GrantedTool V W)
      → List String
      → List (W → W)
      → W
      → Result Error (Executor V W)
  make identity sink tools auto_approve closers world =
      make_with identity sink auto_approve closers world (register [] tools)

  unfoldable pub record_tool_call :
      Executor V W → String → Dict V → Trigger → Status → Approval → Option String → Executor V W
  record_tool_call x name arguments trigger status approval output = record x {
    sink = append x.sink (record {
      agent = x.identity;
      event = Event.tool_call;
      trigger = trigger;
      action = record {
        name = name;
        input_digest = arguments_digest host arguments;
        input_summary = arguments_summary name arguments;
      };
      outcome = record {
        status = status;
        output_digest = elim output [
          | none ↦ none
          | some text ↦ some (concat ("sha256:" ∷ host.sha256 text ∷ []))
        ];
      };
      approval = some approval;
      cost = none;
    });
  }

  -- The three ends of `_run`, given how the tool's own code ended.
  unfoldable pub finish_run :
      Executor V W
      → GrantedTool V W
      → ToolCallRequest V
      → Dict V
      → Trigger
      → Approval
      → RunResult
      → Executor V W × ToolResult
  finish_run x tool call arguments trigger approval (refused text) = (
    record_tool_call x tool.name arguments trigger Status.denied approval none,
    record { call_id = call.id; name = tool.name; status = Status.denied; output = text },
  )
  finish_run x tool call arguments trigger approval (failed text) = (
    record_tool_call x tool.name arguments trigger Status.error approval none,
    record {
      call_id = call.id;
      name = tool.name;
      status = Status.error;
      output = concat ("tool error: " ∷ text ∷ []);
    },
  )
  finish_run x tool call arguments trigger approval (returned output) = (
    record_tool_call x tool.name arguments trigger Status.ok approval (some output),
    record { call_id = call.id; name = tool.name; status = Status.ok; output = output },
  )

  unfoldable pub run_tool :
      Executor V W
      → GrantedTool V W
      → ToolCallRequest V
      → Dict V
      → Trigger
      → Approval
      → Executor V W × ToolResult
  run_tool x tool call arguments trigger approval =
      let (r, w) = tool.run arguments x.world in
      finish_run (record x { world = w }) tool call arguments trigger approval r

  -- An answer `denied` to a call that is not run.
  unfoldable pub deny_call :
      Executor V W → ToolCallRequest V → Trigger → String → Executor V W × ToolResult
  deny_call x call trigger output = (
    record_tool_call x call.name call.arguments trigger Status.denied by_policy none,
    record { call_id = call.id; name = call.name; status = Status.denied; output = output },
  )

  -- Default-deny: the call is parked under a fresh id.
  unfoldable pub park :
      String
      → String
      → Executor V W
      → ToolCallRequest V
      → Dict V
      → Trigger
      → Executor V W × ToolResult
  park fresh now x call arguments trigger = (
    record x {
      pending = Dict.put x.pending fresh (record {
        call_id = fresh;
        call = call;
        arguments = arguments;
        trigger = trigger;
        requested_at = now;
        state = CallState.pending;
        decided_by = none;
        result = none;
      });
      sink = append x.sink (record {
        agent = x.identity;
        event = Event.approval;
        trigger = trigger;
        action = record {
          name = call.name;
          input_digest = arguments_digest host arguments;
          input_summary = arguments_summary call.name arguments;
        };
        outcome = record { status = Status.pending_approval; output_digest = none };
        approval = none;
        cost = none;
      });
    },
    record {
      call_id = call.id;
      name = call.name;
      status = Status.pending_approval;
      output = concat ("call parked pending human approval (approval id: " ∷ fresh ∷ ")" ∷ []);
    },
  )

  -- The call of a granted tool: pins, then the approval gate.
  unfoldable pub granted_call :
      String
      → String
      → Executor V W
      → GrantedTool V W
      → ToolCallRequest V
      → Trigger
      → Executor V W × ToolResult
  granted_call fresh now x tool call trigger =
      let pins = pins_of tool in
      let overridden = sort_names (overridden_keys host.same call.arguments pins) in
      let arguments = Dict.merge call.arguments pins in
      if not (is_empty overridden)
      then deny_call x call trigger (
          concat (
            "constraint violation: parameter(s) "
            ∷ host.repr_list overridden
            ∷ " are pinned by the spec and cannot be overridden"
            ∷ []))
      else if contains x.auto_approve call.name
      then run_tool x tool call arguments trigger by_policy
      else park fresh now x call arguments trigger

  unfoldable pub dispatch :
      String
      → String
      → Executor V W
      → ToolCallRequest V
      → Trigger
      → Option (GrantedTool V W)
      → Executor V W × ToolResult
  dispatch fresh now x call trigger none =
      deny_call x call trigger (
        concat ("unknown tool '" ∷ call.name ∷ "': no such grant exists in this agent's spec" ∷ []))
  dispatch fresh now x call trigger (some tool) = granted_call fresh now x tool call trigger

  -- `fresh` is the new uuid, `now` the clock, for the case that the call is parked.
  unfoldable pub execute :
      String
      → String
      → Executor V W
      → ToolCallRequest V
      → Option Trigger
      → Executor V W × Result Error ToolResult
  execute fresh now x call none = (
    x,
    err (trigger_refused "tool call refused: no trigger — an unrecordable call must not execute"),
  )
  execute fresh now x call (some trigger) =
      let (y, result) = dispatch fresh now x call trigger (Dict.get x.tools call.name) in
      (y, ok result)

-- The closers run once: a second `close` finds none.
unfoldable pub close : {V W : Type 0} → Executor V W → Executor V W
close x = record x { closers = []; world = foldl (λ w f. f w) x.world x.closers }

unfoldable pub visible_tools : {V W : Type 0} → Executor V W → List (ToolDescriptor V)
visible_tools x =
    map
      (λ e. record {
        name = e.1.name;
        description = e.1.description;
        parameters = unpinned (pins_of e.1) e.1.parameters;
      })
      x.tools
