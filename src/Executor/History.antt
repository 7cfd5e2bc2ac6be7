-- ===== src/Executor/History.antt =====
-- Histories of an executor: requests of the model and decisions of humans, in any order.
use mathlib.Core.List.{append_assoc, append-nil}
use agent_keep.Base.{
  String, true, ◌≡◌, refl, sym, ◌∙◌, ap, inl, inr, Option, none, some, List, [], ◌∷◌, ◌++◌, ok,
  contains, All, All-append,
}
use agent_keep.Base.Dict
use agent_keep.Base.Dict.{Dict}
use agent_keep.Audit.{AgentIdentity, Trigger, AuditLog, event_blocks}
use agent_keep.Executor.Types.{Host, ToolCallRequest, GrantedTool, Executor, PendingCall}
use agent_keep.Executor.Calls.{make, execute}
use agent_keep.Executor.Decide.{Decision, approve, deny, resolve}
use agent_keep.Executor.Audited.{execute-IsAudited}
use agent_keep.Executor.Gate.{execute_default_deny}
use agent_keep.Executor.Resolve.{resolve-WasDecided}
use agent_keep.Executor.Invariant.{
  IsValid, Parked, HasDicts, make-IsValid, execute-IsValid, resolve-IsValid,
}

-- One entry of a history: a request of the model, or a human's decision.
pub data Op (V : Type 0) : Type 0 where
  request : String → String → ToolCallRequest V → Option Trigger → Op V
  decision : String → Decision → String → Op V

abbrev pub IsDenial : {V : Type 0} → Op V → Type 0
IsDenial (decision i approve who) = ⊥
IsDenial _ = Unit

module _ {V W : Type 0} (host : Host V) where
  unfoldable pub step : Executor V W → Op V → Executor V W
  step x (request fresh now call trigger) = (execute host fresh now x call trigger).0
  step x (decision i d who) = (resolve host x i d who).0

  unfoldable pub run : Executor V W → List (Op V) → Executor V W
  unfolding step
  run x [] = x
  run x (op ∷ ops) = run (step x op) ops

  step-IsValid : (x : Executor V W) (op : Op V) → IsValid x → IsValid (step x op)
  unfolding step
  step-IsValid x (request fresh now call trigger) v =
      execute-IsValid host fresh now x call trigger v
  step-IsValid x (decision i d who) v = resolve-IsValid host x i d who v

  run-IsValid : (x : Executor V W) (ops : List (Op V)) → IsValid x → IsValid (run x ops)
  unfolding run
  run-IsValid x [] v = v
  run-IsValid x (op ∷ ops) v = run-IsValid (step x op) ops (step-IsValid x op v)

  -- In whatever order calls and decisions came since the executor was built, every parked call
  -- names a granted tool, and its arguments hold every pin of that tool and, wherever nothing is
  -- pinned, what the model asked for.
  pub run-Parked :
      (identity : AgentIdentity) (sink : AuditLog) (tools : List (GrantedTool V W))
      (auto_approve : List String) (closers : List (W → W)) (world : W) (x : Executor V W)
      (ops : List (Op V)) (i : String) (entry : PendingCall V)
      → HasDicts tools
      → make host identity sink tools auto_approve closers world ≡ ok x
      → Dict.get (run x ops).pending i ≡ some entry
      → Parked (run x ops) entry
  run-Parked identity sink tools auto_approve closers world x ops i entry d e h =
      (run-IsValid x ops
          (make-IsValid host identity sink tools auto_approve closers world x d e)).parked
        i entry h

  execute_untriggered :
      (fresh now : String) (x : Executor V W) (call : ToolCallRequest V)
      → (execute host fresh now x call none).0 ≡ x
  unfolding execute
  execute_untriggered fresh now x call = refl

  step_grows :
      (x : Executor V W) (op : Op V)
      → (more : AuditLog) × ((step x op).sink ≡ x.sink ++ more)
        × All (λ r. event_blocks r ≡ true) more
  unfolding step
  step_grows x (request fresh now call none) = (
    [],
    ap (λ (y : Executor V W). y.sink) (execute_untriggered fresh now x call)
        ∙ sym (append-nil x.sink),
    tt,
  )
  step_grows x (request fresh now call (some trigger)) =
      elim (execute-IsAudited host fresh now x call trigger).3 [
        | inl (r, e, _, _, _, _, valid) ↦ (r ∷ [], e, (valid, tt))
        | inr (_, (r, e, _, _, _, _, valid)) ↦ (r ∷ [], e, (valid, tt))
      ]
  step_grows x (decision i d who) = elim (resolve-WasDecided host x i d who) [
    | inl (_, _, e) ↦ ([], ap (λ (y : Executor V W). y.sink) e ∙ sym (append-nil x.sink), tt)
    | inr (_, _, (_, _, _, _, _, _, done)) ↦
        let (r, e, _, _, _, _, valid) = done.audited in (r ∷ [], e, (valid, tt))
  ]

  untouched_step :
      (x : Executor V W) (op : Op V)
      → x.auto_approve ≡ []
      → IsDenial op
      → ((step x op).world ≡ x.world) × ((step x op).auto_approve ≡ [])
  unfolding step contains
  untouched_step x (request fresh now call none) a h =
      let e = execute_untriggered fresh now x call in
      (ap (λ (y : Executor V W). y.world) e, ap (λ (y : Executor V W). y.auto_approve) e ∙ a)
  untouched_step x (request fresh now call (some trigger)) a h =
      let (_, _, unrun) = execute_default_deny host fresh now x call trigger (rw a) in
      (unrun.0, unrun.2 ∙ a)
  untouched_step x (decision i approve who) a h = absurd h
  untouched_step x (decision i deny who) a h = elim (resolve-WasDecided host x i deny who) [
    | inl (_, _, e) ↦
        (ap (λ (y : Executor V W). y.world) e, ap (λ (y : Executor V W). y.auto_approve) e ∙ a)
    | inr (_, _, (_, _, _, _, _, _, done)) ↦ (done.world, done.auto_approve ∙ a)
  ]

  -- Without a pre-approved tool, no history in which nobody approves a call lets any tool run: the
  -- world outside is as it was at the beginning.
  pub run_without_approval :
      (x : Executor V W) (ops : List (Op V))
      → x.auto_approve ≡ []
      → All IsDenial ops
      → (run x ops).world ≡ x.world
  unfolding run
  run_without_approval x [] a h = refl
  run_without_approval x (op ∷ ops) a h =
      let (w, a') = untouched_step x op a h.0 in run_without_approval (step x op) ops a' h.1 ∙ w

  -- The audit log of an executor only grows, and every record that a history adds passes the
  -- record's validator.
  pub run-append_only :
      (x : Executor V W) (ops : List (Op V))
      → (more : AuditLog) × ((run x ops).sink ≡ x.sink ++ more)
        × All (λ r. event_blocks r ≡ true) more
  unfolding run
  run-append_only x [] = ([], sym (append-nil x.sink), tt)
  run-append_only x (op ∷ ops) =
      let (m, e, v) = step_grows x op in
      let (n, f, w) = run-append_only (step x op) ops in
      (m ++ n, f ∙ ap (λ s. s ++ n) e ∙ append_assoc x.sink m n, All-append _ m n v w)
