-- ===== src/Executor/Bound.antt =====
-- What `build_executor` binds of a local server.
use agent_keep.Base.{
  String, Bool, true, false, ◌≡◌, refl, ap, ◌⊎◌, inl, inr, Option, none, some, List, [], ◌∷◌,
  Result, ok, err, ok-injective,
}
use mathlib.Core.Path.{subst}
use agent_keep.Base.Dict
use agent_keep.Base.Dict.{Dict}
use agent_keep.Executor.Types.{refused, GrantedTool}
use agent_keep.Executor.Build.{
  Scope, read_only, read_write, Grant, Server, LocalTool, BuildError, qualified, refuse_run,
  bind_local, and_then, bind_grants,
}

module _ {V W : Type 0} where
  -- The tool of a read-only grant without evidence refuses every call and touches nothing; any other
  -- runs the implementation.
  abbrev pub Tightened : Grant V → LocalTool V W → GrantedTool V W → Type 0
  Tightened grant impl tool =
      ((grant.scope ≡ read_only)
        × (impl.evidence ≡ false)
        × ((arguments : Dict V) (w : W)
            → (text : String) × (tool.run arguments w ≡ (refused text, w))))
      ⊎ (((grant.scope ≡ read_write) ⊎ (impl.evidence ≡ true)) × (tool.run ≡ impl.run))

  -- One tool for each grant, in their order.
  abbrev pub IsBound :
      Dict (LocalTool V W) → Server V → List (Grant V) → List (GrantedTool V W) → Type 0
  IsBound registry server [] [] = Unit
  IsBound registry server (grant ∷ grants) (tool ∷ tools) =
      ((impl : LocalTool V W) × (Dict.get registry grant.name ≡ some impl)
        × (tool.name ≡ qualified server grant)
        × (tool.constraints ≡ grant.constraints)
        × Tightened grant impl tool)
      × IsBound registry server grants tools
  IsBound registry server _ _ = ⊥

  bind_local-Tightened :
      (server : Server V) (grant : Grant V) (impl : LocalTool V W)
      → Tightened grant impl (bind_local server grant impl)
  unfolding bind_local
  bind_local-Tightened server grant impl = by_scope grant.scope refl impl.evidence refl
    where
      by_scope :
          (s : Scope)
          → grant.scope ≡ s
          → (b : Bool) → impl.evidence ≡ b
          → Tightened grant impl (bind_local server grant impl)
      by_scope read_write e b f = inr (inl e, rw e refl)
      by_scope read_only e true f = inr (inr f, rw (e, f) refl)
      by_scope read_only e false f =
          let q : (bind_local server grant impl).run ≡ refuse_run (qualified server grant) =
            rw (e, f) refl in
          inl (e, f, λ arguments w. (_, ap (λ r. r arguments w) q))

  and_then-IsBound :
      (registry : Dict (LocalTool V W)) (server : Server V) (grant : Grant V)
      (grants : List (Grant V)) (o : Option (LocalTool V W))
      (rest : Result BuildError (List (GrantedTool V W))) (tools : List (GrantedTool V W))
      → Dict.get registry grant.name ≡ o
      → ((more : List (GrantedTool V W)) → rest ≡ ok more → IsBound registry server grants more)
      → and_then server grant o rest ≡ ok tools
      → IsBound registry server (grant ∷ grants) tools
  unfolding bind_local
  and_then-IsBound registry server grant grants none rest tools g h e = absurd (cc e)
  and_then-IsBound registry server grant grants (some impl) (err f) tools g h e = absurd (cc e)
  and_then-IsBound registry server grant grants (some impl) (ok more) tools g h e =
      subst (IsBound registry server (grant ∷ grants)) (ok-injective e)
        ((impl, g, refl, refl, bind_local-Tightened server grant impl), h more refl)

  -- A local server's grants that could be bound give one tool each, in their order, under the
  -- qualified name and with the grant's pins. Scope only tightens: the tool of a read-only grant whose
  -- implementation shows no read-only evidence refuses every call and touches nothing, and every
  -- other tool is the implementation.
  pub bind_grants-IsBound :
      (registry : Dict (LocalTool V W)) (server : Server V) (grants : List (Grant V))
      (tools : List (GrantedTool V W))
      → bind_grants registry server grants ≡ ok tools
      → IsBound registry server grants tools
  unfolding bind_grants
  bind_grants-IsBound registry server [] tools e =
      subst (IsBound registry server []) (ok-injective e) tt
  bind_grants-IsBound registry server (grant ∷ grants) tools e =
      and_then-IsBound registry server grant grants (Dict.get registry grant.name)
        (bind_grants registry server grants) tools refl
        (λ more f. bind_grants-IsBound registry server grants more f) e
