-- ===== src/Core/Rounds.antt =====
-- What a whole turn of core.py leaves in the audit log, and how often it asks a model.
use mathlib.Core.List.{append-nil, append_assoc}
use agent_keep.Base.{
  ℕ, zero, suc, ◌+◌, ◌≤◌, String, Bool, true, false, ◌≡◌, inl, inr, refl, sym, ap, ◌∙◌, Option,
  none, some, List, [], ◌∷◌, ◌++◌, Result, ok, err, is_empty, arith, All, All-append,
}
use agent_keep.Audit.{Trigger, AuditLog, AuditRecord, Event}
use agent_keep.Executor.Types.{Host, ToolCallRequest, Executor}
use agent_keep.Executor.Calls.{execute}
use agent_keep.Executor.Audited.{execute-IsAudited}
use agent_keep.Router.Budget.{Floats}
use agent_keep.Core.Model.{
  AssembledPrompt, ProviderReply, Providers, Error, AgentCore, max_tool_rounds, call_model,
}
use agent_keep.Core.Loop.{lent, run_round, tool_round, advance, turn_loop, run_turn}
use agent_keep.Core.Turn.{OfTurn, model_calls, model_calls-append, call_model-Called}

-- From one log to the other: valid records of the turn, `n` model calls at most.
abbrev pub Grows : Trigger → ℕ → AuditLog → AuditLog → Type 0
Grows trigger n before after =
    (more : AuditLog) × (after ≡ before ++ more)
    × All (OfTurn trigger) more
    × (model_calls more ≤ n)

Grows-trans :
    (trigger : Trigger) (m n k : ℕ) (a b c : AuditLog)
    → m + n ≤ k
    → Grows trigger m a b
    → Grows trigger n b c
    → Grows trigger k a c
Grows-trans trigger m n k a b c h (xs, e, v, i) (ys, f, w, l) = (
  xs ++ ys,
  f ∙ ap (λ s. s ++ ys) e ∙ append_assoc a xs ys,
  All-append (OfTurn trigger) xs ys v w,
  omega (arith, model_calls-append xs ys),
)

quiet :
    (trigger : Trigger) (rs : AuditLog)
    → All (λ r. (r.event ≡ Event.budget_warning) × OfTurn trigger r) rs
    → model_calls rs ≡ 0
unfolding model_calls
quiet trigger [] h = refl
quiet trigger (r ∷ rs) h = rw h.0.0 (omega (arith, quiet trigger rs h.1))

one_call : (r : AuditRecord) → r.event ≡ Event.model_call → model_calls (r ∷ []) ≡ 1
unfolding model_calls
one_call r e = rw e refl

module _ {V W F : Type 0} (host : Host V) (floats : Floats F) (out : Providers V W) where
  execute-Grows :
      (fresh now : String) (x : Executor V W) (call : ToolCallRequest V) (trigger : Trigger)
      → Grows trigger 0 x.sink (execute host fresh now x call (some trigger)).0.sink
  unfolding model_calls
  execute-Grows fresh now x call trigger =
      elim (execute-IsAudited host fresh now x call trigger).3 [
        | inl (r, e, t, ev, _, _, valid) ↦ (r ∷ [], e, ((t, valid), tt), rw ev (omega arith))
        | inr (_, (r, e, t, ev, _, _, valid)) ↦ (r ∷ [], e, ((t, valid), tt), rw ev (omega arith))
      ]

  run_round-Grows :
      (core : AgentCore V W F) (x : Executor V W) (calls : List (ToolCallRequest V))
      (trigger : Trigger)
      → Grows trigger 0 core.audit_sink
          (run_round host floats out core x calls trigger).0.audit_sink
  unfolding run_round model_calls
  run_round-Grows core x [] trigger = ([], sym (append-nil core.audit_sink), tt, omega arith)
  run_round-Grows core x (call ∷ calls) trigger =
      let y =
        (execute host (out.fresh_id core.world) (out.clock core.world) (lent host floats out core x)
          call (some trigger)).0 in
      Grows-trans trigger 0 0 0 core.audit_sink y.sink _ (omega arith)
        (execute-Grows _ _ (lent host floats out core x) call trigger)
        (run_round-Grows (record core { audit_sink = y.sink; world = y.world }) y calls trigger)

  call_model-Grows :
      (core : AgentCore V W F) (prompt : AssembledPrompt V) (trigger : Trigger)
      (session : Option String)
      → Grows trigger 1 core.audit_sink
          (call_model host floats out core prompt (some trigger) session).0.audit_sink
  call_model-Grows core prompt trigger session =
      let c = (call_model-Called host floats out core prompt trigger session).0 in
      (
        c.warnings ++ c.last ∷ [],
        c.sink,
        All-append (OfTurn trigger) c.warnings (c.last ∷ []) (valid c.warnings c.warn_only)
            (c.of_turn, tt),
        omega (
          arith,
          model_calls-append c.warnings (c.last ∷ []),
          quiet trigger c.warnings c.warn_only,
          one_call c.last c.last_event,
        ),
      )
    where
      valid :
          (rs : AuditLog)
          → All (λ r. (r.event ≡ Event.budget_warning) × OfTurn trigger r) rs
          → All (OfTurn trigger) rs
      valid [] h = tt
      valid (r ∷ rs) h = (h.0.1, valid rs h.1)

  advance_elim :
      {A : Type 0} (P : A → Type 0) (o : Option (Executor V W)) (b : Bool) (stop : A)
      (go : Executor V W → A)
      → P stop
      → ((x : Executor V W) → P (go x))
      → P (advance host floats out o b stop go)
  advance_elim P none b stop go s g = s
  advance_elim P (some x) true stop go s g = s
  advance_elim P (some x) false stop go s g = g x

  nothing : (trigger : Trigger) (n : ℕ) (log : AuditLog) → Grows trigger n log log
  unfolding model_calls
  nothing trigger n log = ([], sym (append-nil log), tt, omega arith)

  turn_loop-Grows :
      (left : ℕ) (prompt : AssembledPrompt V) (trigger : Trigger) (session : Option String)
      (id : String) (p : AgentCore V W F × Result Error (ProviderReply V))
      → Grows trigger left p.0.audit_sink
          (turn_loop host floats out left prompt trigger session id p).0.audit_sink
  unfolding turn_loop tool_round
  turn_loop-Grows zero prompt trigger session id (core, err e) = nothing trigger 0 core.audit_sink
  turn_loop-Grows (suc left) prompt trigger session id (core, err e) =
      nothing trigger (suc left) core.audit_sink
  turn_loop-Grows zero prompt trigger session id (core, ok reply) =
      advance_elim
        (λ (q : AgentCore V W F × Result Error (ProviderReply V)).
          Grows trigger 0 core.audit_sink q.0.audit_sink)
        core.executor (is_empty reply.tool_calls) _ _ (nothing trigger 0 core.audit_sink)
        (λ x. nothing trigger 0 core.audit_sink)
  turn_loop-Grows (suc left) prompt trigger session id (core, ok reply) =
      advance_elim
        (λ (q : AgentCore V W F × Result Error (ProviderReply V)).
          Grows trigger (suc left) core.audit_sink q.0.audit_sink)
        core.executor (is_empty reply.tool_calls) _ _ (nothing trigger (suc left) core.audit_sink)
        (λ x.
          let (after, next) = tool_round host floats out core x prompt reply trigger in
          let p = call_model host floats out after next (some trigger) session in
          Grows-trans trigger 0 (suc left) (suc left) _ after.audit_sink _ (omega arith)
            (run_round-Grows core x reply.tool_calls trigger)
            (Grows-trans trigger 1 left (suc left) _ p.0.audit_sink _ (omega arith)
              (call_model-Grows after next trigger session)
              (turn_loop-Grows left next trigger session id p)))

  -- A turn always ends. Whatever the model asks for, it makes at most nine model calls, the first and
  -- one after each of at most eight rounds of tools, and every record that the turn adds to the log,
  -- of the model calls and of the tool calls, is valid and carries the turn's own trigger.
  pub run_turn-Grows :
      (core : AgentCore V W F) (prompt : AssembledPrompt V) (trigger : Trigger)
      (session : Option String) (id : String)
      → Grows trigger
          (1 + max_tool_rounds)
          core.audit_sink
          (run_turn host floats out core prompt trigger session id).0.audit_sink
  unfolding run_turn
  run_turn-Grows core prompt trigger session id =
      let p = call_model host floats out core prompt (some trigger) session in
      Grows-trans trigger 1 max_tool_rounds (1 + max_tool_rounds) _ p.0.audit_sink _ (omega arith)
        (call_model-Grows core prompt trigger session)
        (turn_loop-Grows max_tool_rounds prompt trigger session id p)
