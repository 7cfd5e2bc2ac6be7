-- ===== src/Executor/Gate.antt =====
-- Which calls reach a tool, and with what arguments: the grants, the pins and the approval gate.
use agent_keep.Base.{
  String, Bool, true, false, ◌≡◌, refl, ◌⊎◌, inl, inr, none, some, [], ◌∷◌, ok, arith, contains,
  is_empty, is_empty-sort_names, eq_iff,
}
use agent_keep.Base.Dict
use agent_keep.Base.Dict.{Dict, Distinct}
use agent_keep.Audit.{Trigger, Status}
use agent_keep.Executor.Types.{Host, ToolCallRequest, ToolResult, GrantedTool, Executor, pins_of}
use agent_keep.Executor.Calls.{
  record_tool_call, deny_call, park, granted_call, dispatch, execute, overridden_keys, by_policy,
}
use agent_keep.Executor.Audited.{execute_cases, run_tool-world}

-- The arguments agree with every pin, and with the call wherever nothing is pinned.
abbrev pub Forced : {V : Type 0} → Dict V → Dict V → Dict V → Type 0
Forced {V} pins given arguments =
    ((k : String) (v : V) → Dict.get pins k ≡ some v → Dict.get arguments k ≡ some v)
    × ((k : String) → Dict.get pins k ≡ none → Dict.get arguments k ≡ Dict.get given k)

pub merge-Forced :
    {V : Type 0} (given pins : Dict V) → Distinct pins → Forced pins given (Dict.merge given pins)
merge-Forced given pins d = (
  λ k v e. ground (arith, Dict.get-merge given pins k d),
  λ k e. ground (arith, Dict.get-merge given pins k d),
)

pub overridden-nonempty :
    {V : Type 0} (same : V → V → Bool) (given pins : Dict V) (k : String) (v pin : V)
    → Dict.get pins k ≡ some pin
    → Dict.get given k ≡ some v
    → same v pin ≡ false
    → is_empty (overridden_keys same given pins) ≡ false
unfolding overridden_keys Dict.get
overridden-nonempty same given [] k v pin e g s = cc
overridden-nonempty same given ((j, p) ∷ pins) k v pin e g s =
    ground (arith, eq_iff j k, overridden-nonempty same given pins k v pin)

module _ {V W : Type 0} (host : Host V) where
  abbrev pub Unrun : Executor V W → Executor V W × ToolResult → Type 0
  Unrun x (y, result) =
      (y.world ≡ x.world)
      × (y.tools ≡ x.tools)
      × (y.auto_approve ≡ x.auto_approve)
      × ((result.status ≡ Status.denied) ⊎ (result.status ≡ Status.pending_approval))

  deny_call-Unrun :
      (x : Executor V W) (call : ToolCallRequest V) (trigger : Trigger) (output : String)
      → Unrun x (deny_call host x call trigger output)
  unfolding deny_call record_tool_call
  deny_call-Unrun x call trigger output = (refl, refl, refl, inl refl)

  park-Unrun :
      (fresh now : String) (x : Executor V W) (call : ToolCallRequest V) (arguments : Dict V)
      (trigger : Trigger)
      → Unrun x (park host fresh now x call arguments trigger)
  unfolding park
  park-Unrun fresh now x call arguments trigger = (refl, refl, refl, inr refl)

  -- Default-deny: a call whose name is not pre-approved, granted or not, reaches no tool. The world
  -- is as it was, and the model is told `denied` or `pending_approval`.
  pub execute_default_deny :
      (fresh now : String) (x : Executor V W) (call : ToolCallRequest V) (trigger : Trigger)
      → contains x.auto_approve call.name ≡ false
      → (result : ToolResult) × ((execute host fresh now x call (some trigger)).1 ≡ ok result)
        × Unrun x ((execute host fresh now x call (some trigger)).0, result)
  unfolding execute
  execute_default_deny fresh now x call trigger unlisted = (
    _,
    refl,
    execute_cases host (Unrun x) fresh now x call trigger (deny_call-Unrun x call trigger)
        (λ tool _ listed. cc) (λ tool _ _. park-Unrun fresh now x call _ trigger),
  )

  -- A granted, pre-approved call that overrides no pin runs its tool once, on arguments in which
  -- every pin of the grant is forced and the other arguments are the model's.
  pub execute_forces_pins :
      (fresh now : String) (x : Executor V W) (call : ToolCallRequest V) (trigger : Trigger)
      (tool : GrantedTool V W)
      → Dict.get x.tools call.name ≡ some tool
      → contains x.auto_approve call.name ≡ true
      → is_empty (overridden_keys host.same call.arguments (pins_of tool)) ≡ true
      → Distinct (pins_of tool)
      → (arguments : Dict V) × ((execute host fresh now x call (some trigger)).0.world
          ≡ (tool.run arguments x.world).1)
        × Forced (pins_of tool) call.arguments arguments
  unfolding execute dispatch granted_call
  execute_forces_pins fresh now x call trigger tool granted listed kept d = (
    Dict.merge call.arguments (pins_of tool),
    rw (granted, dispatch, is_empty-sort_names, kept, listed)
        (run_tool-world host x tool call _ trigger by_policy).0,
    merge-Forced call.arguments (pins_of tool) d,
  )

  -- A call that sets a pinned parameter to another value is denied, pre-approved or not: no tool
  -- runs and nothing is parked.
  pub execute_override_denied :
      (fresh now : String) (x : Executor V W) (call : ToolCallRequest V) (trigger : Trigger)
      (tool : GrantedTool V W) (k : String) (v pin : V)
      → Dict.get x.tools call.name ≡ some tool
      → Dict.get (pins_of tool) k ≡ some pin
      → Dict.get call.arguments k ≡ some v
      → host.same v pin ≡ false
      → let (y, r) = execute host fresh now x call (some trigger) in
        (y.world ≡ x.world)
        × (y.pending ≡ x.pending)
        × (result : ToolResult) × (r ≡ ok result)
        × (result.status ≡ Status.denied)
  unfolding execute dispatch granted_call deny_call record_tool_call
  execute_override_denied fresh now x call trigger tool k v pin granted pinned given differs =
      rw
        (
          granted,
          dispatch,
          is_empty-sort_names,
          overridden-nonempty host.same call.arguments (pins_of tool) k v pin pinned given differs,
        )
        (refl, refl, _, refl, refl)
