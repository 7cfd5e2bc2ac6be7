-- ===== src/Executor/Leaks.antt =====
-- What a boot of `build_executor` leaves behind: a count of the managers that are open in the world.
use agent_keep.Base.{
  ℕ, suc, ◌+◌, ◌-◌, String, Bool, true, false, ◌≡◌, refl, List, [], ◌∷◌, Result, ok, err, arith,
  length, All, if◌then◌else◌,
}
use agent_keep.Base.Dict.{Dict}
use agent_keep.Audit.{AgentIdentity, AuditLog}
use agent_keep.Executor.Types.{Host, GrantedTool, Executor, Error}
use agent_keep.Executor.Calls.{register, make_with, make}
use agent_keep.Executor.Build.{
  Server, Transport, local_transport, mcp_transport, LocalTool, BuildError, Manager, Binding,
  executor_error, local_server, mcp_server, started, either_server, fail, bind_grants, bind_servers,
  constructed, finish_build, build_executor,
}

module _ {V W : Type 0} (manager : Manager V W) (open_managers : W → ℕ) where
  -- What a construction that went through, or raised, makes of the count.
  abbrev pub Opens : ℕ → Result String Unit × W → Type 0
  Opens n (ok done, w) = open_managers w ≡ suc n
  Opens n (err e, w) = open_managers w ≡ n

  -- A manager that is open from its construction to its `close`.
  pub record IsCounted : Type 0 where
    pub creates : (w : W) → Opens (open_managers w) (manager.create w)
    pub binds :
        (server : Server V) (w : W)
        → open_managers (manager.bind_server server w).1 ≡ open_managers w
    pub closes : (w : W) → open_managers (manager.close_manager w) ≡ open_managers w - 1

  -- A boot that failed leaves no manager open that was not open before; one that went through has a
  -- closer for each.
  abbrev pub LeaksNone : ℕ → W × Result BuildError (Executor V W) → Type 0
  LeaksNone n (w, err e) = open_managers w ≡ n
  LeaksNone n (w, ok x) =
      (x.world ≡ w)
      × (open_managers w ≡ n + length x.closers)
      × All (λ c. c ≡ manager.close_manager) x.closers

  abbrev opened_count : Bool → ℕ
  opened_count true = 1
  opened_count false = 0

  abbrev Balanced : Bool → W → Binding V W → Type 0
  Balanced opened w b =
      opened_count b.opened + open_managers w ≡ opened_count opened + open_managers b.world

  module _ (counted : IsCounted) (registry : Dict (LocalTool V W)) where
    local_server-Balanced :
        (r : Result BuildError (List (GrantedTool V W))) (opened : Bool) (w : W)
        (rest : Bool → W → Binding V W)
        → Balanced opened w (rest opened w)
        → Balanced opened w (local_server r opened w rest)
    local_server-Balanced (err e) opened w rest h = refl
    local_server-Balanced (ok tools) opened w rest h = h

    mcp_server-Balanced :
        (opened : Bool) (w : W) (p : Result String (List (GrantedTool V W)) × W)
        (rest : Bool → W → Binding V W)
        → 1 + open_managers w ≡ opened_count opened + open_managers p.1
        → ((o : Bool) (v : W) → Balanced o v (rest o v))
        → Balanced opened w (mcp_server p rest)
    mcp_server-Balanced opened w (err e, v) rest h k = h
    mcp_server-Balanced opened w (ok tools, v) rest h k = omega (arith, h, k true v)

    created-Balanced :
        (server : Server V) (w : W) (p : Result String Unit × W) (rest : Bool → W → Binding V W)
        → Opens (open_managers w) p
        → ((o : Bool) (v : W) → Balanced o v (rest o v))
        → Balanced false w (started false p (λ v. mcp_server (manager.bind_server server v) rest))
    created-Balanced server w (err e, v) rest h k = omega (arith, h)
    created-Balanced server w (ok done, v) rest h k =
        mcp_server-Balanced false w (manager.bind_server server v) rest
          (omega (arith, h, counted.binds server v)) k

    either_server-Balanced :
        (server : Server V) (t : Transport) (opened : Bool) (w : W) (rest : Bool → W → Binding V W)
        → ((o : Bool) (v : W) → Balanced o v (rest o v))
        → Balanced opened w (either_server registry manager server t opened w rest)
    either_server-Balanced server local_transport opened w rest k =
        local_server-Balanced (bind_grants registry server server.allow) opened w rest (k opened w)
    either_server-Balanced server mcp_transport true w rest k =
        mcp_server-Balanced true w (manager.bind_server server w) rest
          (omega (arith, counted.binds server w)) k
    either_server-Balanced server mcp_transport false w rest k =
        created-Balanced server w (manager.create w) rest (counted.creates w) k

    bind_servers-Balanced :
        (servers : List (Server V)) (opened : Bool) (w : W)
        → Balanced opened w (bind_servers registry manager servers opened w)
    unfolding bind_servers
    bind_servers-Balanced [] opened w = refl
    bind_servers-Balanced (server ∷ servers) opened w =
        either_server-Balanced server server.transport opened w
          (λ o v. bind_servers registry manager servers o v)
          (λ o v. bind_servers-Balanced servers o v)

    fail-LeaksNone :
        (n : ℕ) (opened : Bool) (w : W) (e : BuildError)
        → open_managers w ≡ opened_count opened + n
        → LeaksNone n (fail manager opened w e)
    fail-LeaksNone n true w e h = omega (arith, h, counted.closes w)
    fail-LeaksNone n false w e h = omega (arith, h)

    abbrev closers_of : Bool → List (W → W)
    closers_of opened = if opened then manager.close_manager ∷ [] else []

    closers-LeaksNone :
        (n : ℕ) (opened : Bool) (w : W)
        → open_managers w ≡ opened_count opened + n
        → (open_managers w ≡ n + length (closers_of opened))
          × All (λ c. c ≡ manager.close_manager) (closers_of opened)
    closers-LeaksNone n true w h = (omega (arith, h), (refl, tt))
    closers-LeaksNone n false w h = (omega (arith, h), tt)

    constructed-LeaksNone :
        (host : Host V) (identity : AgentIdentity) (sink : AuditLog) (auto_approve : List String)
        (n : ℕ) (opened : Bool) (w : W) (r : Result Error (Dict (GrantedTool V W)))
        → open_managers w ≡ opened_count opened + n
        → LeaksNone n (
            constructed manager opened w
              (make_with host identity sink auto_approve (closers_of opened) w r))
    unfolding make_with
    constructed-LeaksNone host identity sink auto_approve n opened w (err e) h =
        fail-LeaksNone n opened w (executor_error e) h
    constructed-LeaksNone host identity sink auto_approve n opened w (ok registered) h =
        ground (arith, closers-LeaksNone n opened w h, fail-LeaksNone n opened w)

    finish_build-LeaksNone :
        (host : Host V) (identity : AgentIdentity) (sink : AuditLog) (auto_approve : List String)
        (n : ℕ) (opened : Bool) (w : W) (tools : Result BuildError (List (GrantedTool V W)))
        → open_managers w ≡ opened_count opened + n
        → LeaksNone n (finish_build host identity sink auto_approve manager opened w tools)
    unfolding make
    finish_build-LeaksNone host identity sink auto_approve n opened w (err e) h =
        fail-LeaksNone n opened w e h
    finish_build-LeaksNone host identity sink auto_approve n opened w (ok tools) h =
        constructed-LeaksNone host identity sink auto_approve n opened w (register [] tools) h

  -- No boot leaks the manager, of which one is open from its construction to its `close`. Where the
  -- boot fails, whatever raised (a grant without an implementation, the manager's construction or a
  -- binding, the executor's own checks), as many managers are open as before it; where it succeeds,
  -- every one more has its `close` among the executor's closers.
  pub build_executor-LeaksNone :
      (host : Host V) (identity : AgentIdentity) (sink : AuditLog) (registry : Dict (LocalTool V W))
      (servers : List (Server V)) (auto_approve : List String) (w : W)
      → IsCounted
      → LeaksNone
          (open_managers w)
          (build_executor host identity sink registry manager servers auto_approve w)
  unfolding build_executor
  build_executor-LeaksNone host identity sink registry servers auto_approve w counted =
      let b = bind_servers registry manager servers false w in
      finish_build-LeaksNone counted registry host identity sink auto_approve (open_managers w)
        b.opened b.world b.tools
        (omega (arith, bind_servers-Balanced counted registry servers false w))
