-- ===== src/Executor/Resolve.antt =====
-- What `ToolExecutor.resolve` decides, and what the tool and the audit log see of it.
use agent_keep.Base.{
  String, true, false, ◌≡◌, ◌⊎◌, inl, inr, sym, err-injective, refl, none, some, Result, ok, err,
  arith, str_eq, if_elim, Option_elim, if◌then◌else◌,
}
use agent_keep.Base.Dict
use agent_keep.Base.Dict.{Dict}
use agent_keep.Audit.{Status, Event}
use agent_keep.Executor.Types.{
  Host, ToolResult, GrantedTool, Executor, PendingCall, CallState, Error, already_decided,
  pending_call,
}
use agent_keep.Executor.Calls.{record_tool_call}
use agent_keep.Executor.Decide.{
  Decision, approve, deny, by_human, is_pending, is_blank, mark, decide, with_tool, with_entry,
  resolve,
}
use agent_keep.Executor.Audited.{Adds, record_tool_call-Adds, run_tool-Adds, run_tool-world}

abbrev pub decided_state : Decision → CallState
decided_state approve = CallState.approved
decided_state deny = CallState.denied

pub is_pending-decided_state : (d : Decision) → is_pending (decided_state d) ≡ false
is_pending-decided_state approve = refl
is_pending-decided_state deny = refl

module _ {V W : Type 0} (host : Host V) where
  module _ {κ} (P : Executor V W × Result Error ToolResult → Type κ) where
    -- `resolve` raises and leaves the state alone, or decides an undecided call of a granted tool.
    pub resolve_cases :
        (x : Executor V W) (i : String) (d : Decision) (who : String)
        → ((e : Error) → P (x, err e))
        → ((entry : PendingCall V) (tool : GrantedTool V W)
            → is_blank host who ≡ false
            → Dict.get x.pending i ≡ some entry
            → is_pending entry.state ≡ true
            → Dict.get x.tools entry.call.name ≡ some tool
            → P (decide host x i entry tool d who))
        → P (resolve host x i d who)
    unfolding resolve with_entry with_tool
    resolve_cases x i d who failed decided =
        if_elim P (is_blank host who) _ _ (λ _. failed _)
          (λ named.
            Option_elim (λ o. P (with_entry host x i d who o)) (Dict.get x.pending i)
              (λ _. failed _)
              (λ entry e.
                if_elim P (is_pending entry.state) _ _
                  (λ undecided.
                    Option_elim (λ o. P (with_tool host x i entry d who o))
                      (Dict.get x.tools entry.call.name) (λ _. failed _)
                      (λ tool t. decided entry tool named e undecided t))
                  (λ _. failed _)))

  -- What a decision leaves behind.
  abbrev pub world_after : Decision → GrantedTool V W → PendingCall V → Executor V W → W
  world_after approve tool entry x = (tool.run entry.arguments x.world).1
  world_after deny tool entry x = x.world

  pub record Decided (x : Executor V W) (i : String) (entry : PendingCall V)
      (tool : GrantedTool V W) (d : Decision) (who : String) (y : Executor V W)
      (result : ToolResult) : Type 0 where
    pub world : y.world ≡ world_after d tool entry x
    pub audited :
        Adds x.sink y.sink entry.trigger Event.tool_call result.status (some (by_human who))
    pub tools : y.tools ≡ x.tools
    pub auto_approve : y.auto_approve ≡ x.auto_approve
    pub pending :
        (j : String)
        → Dict.get y.pending j ≡ (
            if str_eq i j
            then some (record entry {
              state = decided_state d;
              decided_by = some who;
              result = some result;
            })
            else Dict.get x.pending j)

  pub decide-Decided :
      (x : Executor V W) (i : String) (entry : PendingCall V) (tool : GrantedTool V W)
      (d : Decision) (who : String)
      → (result : ToolResult) × ((decide host x i entry tool d who).1 ≡ ok result)
        × Decided x i entry tool d who (decide host x i entry tool d who).0 result
  unfolding decide
  decide-Decided x i entry tool deny who = (
    _,
    refl,
    unfold record_tool_call in
        record {
          world = refl;
          audited =
              record_tool_call-Adds host (mark x i entry CallState.denied who) entry.call.name
                entry.arguments entry.trigger Status.denied (by_human who) none;
          tools = refl;
          auto_approve = refl;
          pending = λ j. simp Dict.get-put (ground arith);
        },
  )
  decide-Decided x i entry tool approve who =
      let m = mark x i entry CallState.approved who in
      let facts =
        run_tool-world host m tool entry.call entry.arguments entry.trigger (by_human who) in
      (
        _,
        refl,
        record {
          world = facts.0;
          audited =
              run_tool-Adds host m tool entry.call entry.arguments entry.trigger (by_human who);
          tools = facts.1;
          auto_approve = facts.3;
          pending = λ j. rw facts.2 (simp Dict.get-put (ground arith));
        },
      )

  -- A call to `resolve` that raises changes nothing.
  resolve_failed :
      (x : Executor V W) (i : String) (d : Decision) (who : String) (e : Error)
      → (resolve host x i d who).1 ≡ err e
      → (resolve host x i d who).0 ≡ x
  resolve_failed x i d who e =
      resolve_cases (λ p. p.1 ≡ err e → p.0 ≡ x) x i d who (λ _ _. refl)
        (λ entry tool _ _ _ _ h. cc ((decide-Decided x i entry tool d who).1))

  -- What a decision that went through did: the call was parked and undecided, its tool is granted,
  -- and the outcome is that of the parked arguments.
  abbrev pub WasDecided :
      Executor V W → String → Decision → String → Executor V W → ToolResult → Type 0
  WasDecided x i d who y result =
      (entry : PendingCall V) × (tool : GrantedTool V W) × (Dict.get x.pending i ≡ some entry)
      × (is_pending entry.state ≡ true)
      × (Dict.get x.tools entry.call.name ≡ some tool)
      × (is_blank host who ≡ false)
      × Decided x i entry tool d who y result

  -- `resolve` raises and leaves the state alone, or decides one undecided parked call: on `deny` no
  -- tool runs, on `approve` the call's tool runs once on the parked arguments; one `tool_call` record
  -- with the original trigger and the decider's name is appended, and only that entry changes.
  pub resolve-WasDecided :
      (x : Executor V W) (i : String) (d : Decision) (who : String)
      → let (y, r) = resolve host x i d who in
        ((e : Error) × (r ≡ err e) × (y ≡ x))
        ⊎ ((result : ToolResult) × (r ≡ ok result) × WasDecided x i d who y result)
  resolve-WasDecided x i d who =
      resolve_cases
        (λ (y, r).
          ((e : Error) × (r ≡ err e) × (y ≡ x))
          ⊎ ((result : ToolResult) × (r ≡ ok result) × WasDecided x i d who y result))
        x i d who (λ e. inl (e, refl, refl))
        (λ entry tool named e undecided t.
          let (result, p, done) = decide-Decided x i entry tool d who in
          inr (result, p, (entry, tool, e, undecided, t, named, done)))

  -- With a name for the decider and a granted tool behind every parked call, `resolve` raises only
  -- `PendingCallError` and `AlreadyDecidedError`.
  pub resolve_error_kinds :
      (x : Executor V W) (i : String) (d : Decision) (who : String) (e : Error)
      → is_blank host who ≡ false
      → ((entry : PendingCall V)
          → Dict.get x.pending i ≡ some entry
          → (tool : GrantedTool V W) × (Dict.get x.tools entry.call.name ≡ some tool))
      → (resolve host x i d who).1 ≡ err e
      → ((message : String) × (e ≡ pending_call message))
        ⊎ ((message : String) × (e ≡ already_decided message))
  unfolding resolve with_entry with_tool
  resolve_error_kinds x i d who e named granted = rw named (
      Option_elim
        (λ o.
          Dict.get x.pending i ≡ o
          → (with_entry host x i d who o).1 ≡ err e
          → ((message : String) × (e ≡ pending_call message))
            ⊎ ((message : String) × (e ≡ already_decided message)))
        (Dict.get x.pending i) (λ _ _ h. inl (_, sym (err-injective h)))
        (λ entry found _.
          if_elim
            (λ (p : Executor V W × Result Error ToolResult).
              p.1 ≡ err e
              → ((message : String) × (e ≡ pending_call message))
                ⊎ ((message : String) × (e ≡ already_decided message)))
            (is_pending entry.state) _ _
            (λ _ h.
              let (tool, t) = granted entry found in
              let (result, p, _) = decide-Decided x i entry tool d who in
              absurd (cc (p, rw (t, with_tool) at h)))
            (λ _ h. inr (_, sym (err-injective h))))
        refl)
