-- ===== src/Executor/Invariant.antt =====
-- The invariant of the executor's registries.
use agent_keep.Base.{
  String, ◌≡◌, refl, inl, inr, Option, none, some, List, [], ◌∷◌, Result, ok, err, arith, str_eq,
  if◌then◌else◌, All, is_empty-sort_names, Bool-cases, if_some_cases, ok-injective,
}
use mathlib.Core.Path.{subst}
use agent_keep.Base.Dict
use agent_keep.Base.Dict.{Dict, Distinct}
use agent_keep.Audit.{AgentIdentity, Trigger, AuditLog}
use agent_keep.Executor.Types.{
  Host, ToolCallRequest, GrantedTool, Executor, PendingCall, Error, pins_of,
}
use agent_keep.Executor.Calls.{
  register, without_names, make_with, make, record_tool_call, deny_call, park, execute, by_policy,
}
use agent_keep.Executor.Decide.{Decision, resolve}
use agent_keep.Executor.Audited.{execute_cases, run_tool-world}
use agent_keep.Executor.Gate.{Forced, merge-Forced}
use agent_keep.Executor.Resolve.{resolve-WasDecided}

-- A parked call names a granted tool, and its arguments carry that tool's pins.
abbrev pub Parked : {V W : Type 0} → Executor V W → PendingCall V → Type 0
Parked {V} {W} x entry =
    (tool : GrantedTool V W) × (Dict.get x.tools entry.call.name ≡ some tool)
    × Forced (pins_of tool) entry.call.arguments entry.arguments

pub record IsValid {V W : Type 0} (x : Executor V W) : Type 0 where
  pub dicts :
      (n : String) (tool : GrantedTool V W)
      → Dict.get x.tools n ≡ some tool
      → Distinct (pins_of tool)
  pub parked :
      (i : String) (entry : PendingCall V) → Dict.get x.pending i ≡ some entry → Parked x entry

module _ {V W : Type 0} (host : Host V) where
  -- What a step that leaves the registries alone, or only adds to the parked calls, must show.
  IsValid-same :
      (x y : Executor V W) → y.tools ≡ x.tools → y.pending ≡ x.pending → IsValid x → IsValid y
  IsValid-same x y t p v = record {
    dicts = λ n tool e. v.dicts n tool (rw t at e);
    parked = λ i entry e. rw t (v.parked i entry (rw p at e));
  }

  IsValid-put :
      (x y : Executor V W) (i : String) (entry : PendingCall V)
      → y.tools ≡ x.tools
      → ((j : String)
          → Dict.get y.pending j ≡ (if str_eq i j then some entry else Dict.get x.pending j))
      → Parked x entry
      → IsValid x
      → IsValid y
  IsValid-put x y i entry t p new v = record {
    dicts = λ n tool e. v.dicts n tool (rw t at e);
    parked = λ j other e. rw t (elim (if_some_cases (str_eq i j) entry other _ _ (p j) e) [
      | inl hit ↦ subst (Parked x) hit new
      | inr old ↦ v.parked j other old
    ]);
  }

  pub execute-IsValid :
      (fresh now : String) (x : Executor V W) (call : ToolCallRequest V) (o : Option Trigger)
      → IsValid x
      → IsValid (execute host fresh now x call o).0
  unfolding execute
  execute-IsValid fresh now x call none v = v
  execute-IsValid fresh now x call (some trigger) v =
      execute_cases host (λ p. IsValid p.0) fresh now x call trigger
        (λ output. unfold deny_call record_tool_call in IsValid-same x _ refl refl v)
        (λ tool _ _.
          let facts =
            run_tool-world host x tool call (Dict.merge call.arguments (pins_of tool)) trigger
              by_policy in
          IsValid-same x _ facts.1 facts.2 v)
        (λ tool granted _.
          unfold park in
          IsValid-put x _ fresh _ refl (λ j. Dict.get-put x.pending fresh j _)
            (
              tool,
              granted,
              merge-Forced call.arguments (pins_of tool) (v.dicts call.name tool granted),
            )
            v)

  pub resolve-IsValid :
      (x : Executor V W) (i : String) (d : Decision) (who : String)
      → IsValid x
      → IsValid (resolve host x i d who).0
  resolve-IsValid x i d who v = elim (resolve-WasDecided host x i d who) [
    | inl (e, _, same) ↦ rw same v
    | inr (result, _, (entry, tool, e, _, _, _, done)) ↦
        IsValid-put x _ i _ done.tools done.pending (v.parked i entry e) v
  ]

-- Every tool's constraints are a dictionary.
abbrev pub HasDicts : {V W : Type 0} → List (GrantedTool V W) → Type 0
HasDicts = All (λ tool. Distinct (pins_of tool))

module _ {V W : Type 0} where
  abbrev Registered : Dict (GrantedTool V W) → Type 0
  Registered registry =
      (n : String) (tool : GrantedTool V W)
      → Dict.get registry n ≡ some tool
      → Distinct (pins_of tool)

  put-Registered :
      (registry : Dict (GrantedTool V W)) (tool : GrantedTool V W)
      → Registered registry
      → Distinct (pins_of tool)
      → Registered (Dict.put registry tool.name tool)
  put-Registered registry tool h d n other e =
      elim (if_some_cases (str_eq tool.name n) tool other _ _
        (Dict.get-put registry tool.name n tool) e) [
          | inl hit ↦ subst (λ (t : GrantedTool V W). Distinct (pins_of t)) hit d
          | inr old ↦ h n other old
        ]

  register-Registered :
      (registry : Dict (GrantedTool V W)) (tools : List (GrantedTool V W))
      (r : Dict (GrantedTool V W))
      → Registered registry
      → HasDicts tools
      → register registry tools ≡ ok r
      → Registered r
  unfolding register
  register-Registered registry [] r h d e = subst Registered (ok-injective e) h
  register-Registered registry (tool ∷ rest) r h d e =
      elim (Bool-cases (Dict.has registry tool.name)) [
        | inl twice ↦ absurd (ground arith)
        | inr new ↦
            register-Registered (Dict.put registry tool.name tool) rest r
              (put-Registered registry tool h d.0) d.1 (ground arith)
      ]

module _ {V W : Type 0} (host : Host V) where
  make_with-opens :
      (identity : AgentIdentity) (sink : AuditLog) (auto_approve : List String)
      (closers : List (W → W)) (world : W) (r : Result Error (Dict (GrantedTool V W)))
      (x : Executor V W)
      → make_with host identity sink auto_approve closers world r ≡ ok x
      → (r ≡ ok x.tools)
        × (x.pending ≡ [])
        × (x.auto_approve ≡ auto_approve)
        × (without_names x.tools auto_approve ≡ [])
  unfolding make_with
  make_with-opens identity sink auto_approve closers world (err f) x e = cc
  make_with-opens identity sink auto_approve closers world (ok registry) x e =
      ground (arith, is_empty-sort_names (without_names registry auto_approve))

  pub make-IsValid :
      (identity : AgentIdentity) (sink : AuditLog) (tools : List (GrantedTool V W))
      (auto_approve : List String) (closers : List (W → W)) (world : W) (x : Executor V W)
      → HasDicts tools
      → make host identity sink tools auto_approve closers world ≡ ok x
      → IsValid x
  unfolding make Dict.get
  make-IsValid identity sink tools auto_approve closers world x d e =
      let opened =
        make_with-opens identity sink auto_approve closers world (register [] tools) x e in
      record {
        dicts = register-Registered [] tools x.tools (λ n tool h. absurd (cc)) d opened.0;
        parked = λ i entry h. absurd (cc (rw opened.1 at h));
      }
