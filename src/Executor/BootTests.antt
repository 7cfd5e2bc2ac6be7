-- ===== src/Executor/BootTests.antt =====
-- A boot with one local tool, and the theorems about boots at work on it.
use agent_keep.Base.{ℕ, suc, ◌==◌, false, refl, none, [], ◌∷◌, ok, err, join, ◌-◌}
use agent_keep.Base.Dict
use agent_keep.Audit.{AgentIdentity}
use agent_keep.Executor.Types.{Host, returned}
use agent_keep.Executor.Build.{
  read_only, Grant, local_transport, mcp_transport, Server, LocalTool, Manager, bind_local,
  bind_grants, build_executor,
}
use agent_keep.Executor.Bound.{IsBound, bind_grants-IsBound}
use agent_keep.Executor.Leaks.{IsCounted, LeaksNone, build_executor-LeaksNone}

abbrev host : Host ℕ
host = record {
  same = ◌==◌;
  dumps = λ d. "{}";
  sha256 = λ s. s;
  repr_list = join ", ";
  repr = λ s. s;
  strip = λ s. s;
}

abbrev identity : AgentIdentity
identity = record { slug = "scribe"; spec_version = "1"; image_digest = "sha256:0" }

-- A tool that writes, and that shows no read-only evidence.
abbrev scribble : LocalTool ℕ ℕ
scribble = record {
  description = "writes";
  parameters = [];
  evidence = false;
  run = λ arguments w. (returned "done", suc w);
}

abbrev grant : Grant ℕ
grant = record { name = "scribble"; scope = read_only; constraints = none }

abbrev desk : Server ℕ
desk = record { name = "desk"; transport = local_transport; allow = grant ∷ [] }

abbrev remote : Server ℕ
remote = record { name = "remote"; transport = mcp_transport; allow = [] }

abbrev manager : Manager ℕ ℕ
manager = record {
  create = λ w. (ok tt, suc w);
  bind_server = λ server w. (err "no such host", w);
  close_manager = λ w. w - 1;
}

bind_grants-IsBound_example :
    IsBound (("scribble", scribble) ∷ []) desk (grant ∷ []) (bind_local desk grant scribble ∷ [])
unfolding bind_grants Dict.get
bind_grants-IsBound_example =
    bind_grants-IsBound (("scribble", scribble) ∷ []) desk (grant ∷ [])
      (bind_local desk grant scribble ∷ []) refl

-- Managers are counted; none is open at the start.
manager-IsCounted : IsCounted manager (λ w. w)
manager-IsCounted = record { creates = λ w. refl; binds = λ server w. refl; closes = λ w. refl }

build_executor-LeaksNone_example :
    LeaksNone manager
      (λ w. w)
      0
      (build_executor host identity []
        (("scribble", scribble) ∷ [])
        manager
        (desk ∷ remote ∷ [])
        []
        0)
build_executor-LeaksNone_example =
    build_executor-LeaksNone manager (λ w. w) host identity [] (("scribble", scribble) ∷ [])
      (desk ∷ remote ∷ []) [] 0 manager-IsCounted
