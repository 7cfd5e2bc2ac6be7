-- ===== src/Executor/Once.antt =====
-- That a parked call is decided once, over histories of the executor.
use agent_keep.Base.{
  String, false, ◌≡◌, ◌∙◌, inl, inr, refl, sym, ap, Option, some, none, List, [], ◌∷◌, ok, err,
  concat, str_eq, eq_iff, eq_of_some, Bool-cases, All, eq_refl,
}
use agent_keep.Base.Dict
use agent_keep.Audit.{Trigger}
use agent_keep.Executor.Types.{
  Host, ToolCallRequest, ToolResult, Executor, PendingCall, already_decided,
}
use agent_keep.Executor.Calls.{deny_call, record_tool_call, park, execute}
use agent_keep.Executor.Decide.{Decision, is_pending, is_blank, state_name, with_entry, resolve}
use agent_keep.Executor.Audited.{execute_cases, run_tool-world}
use agent_keep.Executor.Resolve.{is_pending-decided_state, decided_state, resolve-WasDecided}
use agent_keep.Executor.History.{Op, request, decision, step, run}

-- A call that is parked later has another id, as uuid4 sees to.
abbrev pub IsElsewhere : {V : Type 0} → String → Op V → Type 0
IsElsewhere i (request fresh now call trigger) = str_eq fresh i ≡ false
IsElsewhere i (decision j d who) = Unit

-- What a decision makes of the entry.
abbrev decided_entry : {V : Type 0} → PendingCall V → Decision → String → ToolResult → PendingCall V
decided_entry entry d who result = record entry {
  state = decided_state d;
  decided_by = some who;
  result = some result;
}

module _ {V W : Type 0} (host : Host V) where
  execute-keeps :
      (fresh now : String) (x : Executor V W) (call : ToolCallRequest V) (o : Option Trigger)
      (i : String) (entry : PendingCall V)
      → Dict.get x.pending i ≡ some entry
      → str_eq fresh i ≡ false
      → Dict.get (execute host fresh now x call o).0.pending i ≡ some entry
  unfolding execute
  execute-keeps fresh now x call none i entry e apart = e
  execute-keeps fresh now x call (some trigger) i entry e apart =
      execute_cases host (λ p. Dict.get p.0.pending i ≡ some entry) fresh now x call trigger
        (λ output. unfold deny_call record_tool_call in e)
        (λ tool _ _.
          let facts = run_tool-world host x tool call _ trigger _ in
          ap (λ d. Dict.get d i) facts.2 ∙ e)
        (λ tool _ _. unfold park in rw (Dict.get-put x.pending fresh i _, apart) e)

  resolve-keeps :
      (x : Executor V W) (j : String) (d : Decision) (who i : String) (entry : PendingCall V)
      → Dict.get x.pending i ≡ some entry
      → is_pending entry.state ≡ false
      → Dict.get (resolve host x j d who).0.pending i ≡ some entry
  resolve-keeps x j d who i entry e settled = elim (resolve-WasDecided host x j d who) [
    | inl (_, _, same) ↦ rw same e
    | inr (_, _, (other, _, f, undecided, _, _, done)) ↦ elim (Bool-cases (str_eq j i)) [
      | inl y ↦
          let g : some other ≡ some entry =
            sym f ∙ ap (Dict.get x.pending) ((eq_iff j i).0 y) ∙ e in
          absurd (cc (undecided, settled, eq_of_some g))
      | inr n ↦ done.pending i ∙ rw n e
    ]
  ]

  run-keeps :
      (x : Executor V W) (ops : List (Op V)) (i : String) (entry : PendingCall V)
      → All (IsElsewhere i) ops
      → Dict.get x.pending i ≡ some entry
      → is_pending entry.state ≡ false
      → Dict.get (run host x ops).pending i ≡ some entry
  unfolding run step
  run-keeps x [] i entry h e settled = e
  run-keeps x (request fresh now call o ∷ ops) i entry h e settled =
      run-keeps (execute host fresh now x call o).0 ops i entry h.1
        (execute-keeps fresh now x call o i entry e h.0) settled
  run-keeps x (decision j d who ∷ ops) i entry h e settled =
      run-keeps (resolve host x j d who).0 ops i entry h.1
        (resolve-keeps x j d who i entry e settled) settled

  again :
      (x : Executor V W) (i : String) (later : Decision) (whom : String) (entry : PendingCall V)
      → Dict.get x.pending i ≡ some entry
      → is_pending entry.state ≡ false
      → is_blank host whom ≡ false
      → (text : String) × (resolve host x i later whom ≡ (x, err (already_decided text)))
  unfolding resolve with_entry
  again x i later whom entry e settled named = (
    concat ("call " ∷ host.repr i ∷ " was already " ∷ state_name entry.state ∷ []),
    rw (named, e, with_entry, settled) refl,
  )

  -- A call is decided once: after a decision that went through, and whatever calls and decisions came
  -- since, every later decision of that call by somebody with a name raises `AlreadyDecidedError` and
  -- changes nothing, where no call parked since got the same id.
  pub run-resolve_once :
      (x : Executor V W) (i : String) (d later : Decision) (who whom : String) (result : ToolResult)
      (ops : List (Op V))
      → (resolve host x i d who).1 ≡ ok result
      → All (IsElsewhere i) ops
      → is_blank host whom ≡ false
      → let y = run host (resolve host x i d who).0 ops in
        (text : String) × (resolve host y i later whom ≡ (y, err (already_decided text)))
  run-resolve_once x i d later who whom result ops went apart named =
      elim (resolve-WasDecided host x i d who) [
        | inl (e, f, _) ↦ absurd (cc (went, f))
        | inr (r, _, (entry, _, _, _, _, _, done)) ↦
            let y = (resolve host x i d who).0 in
            let settled = is_pending-decided_state d in
            let e : Dict.get y.pending i ≡ some (decided_entry entry d who r) =
              rw (eq_refl i) at (done.pending i) in
            again (run host y ops) i later whom (decided_entry entry d who r)
              (run-keeps y ops i (decided_entry entry d who r) apart e settled) settled named
      ]
