-- ===== src/Executor/Build.antt =====
-- `build_executor`: the spec's grants bound to their implementations. The manager of MCP servers is
-- another component: what it binds, and its `close`, are parameters.
use agent_keep.Base.{
  String, Bool, true, false, ◌&&◌, not, Option, none, some, List, [], ◌∷◌, ◌++◌, Result, ok, err,
  concat, if◌then◌else◌,
}
use agent_keep.Base.Dict
use agent_keep.Base.Dict.{Dict}
use agent_keep.Audit.{AgentIdentity, AuditLog}
use agent_keep.Executor.Types.{Host, RunResult, refused, GrantedTool, Executor, Error}
use agent_keep.Executor.Calls.{make}

pub data Scope : Type 0 where
  read_only read_write : Scope

pub record Grant (V : Type 0) : Type 0 where
  pub name : String
  pub scope : Scope
  pub constraints : Option (Dict V)

pub data Transport : Type 0 where
  local_transport mcp_transport : Transport

pub record Server (V : Type 0) : Type 0 where
  pub name : String
  pub transport : Transport
  pub allow : List (Grant V)

-- An entry of the registry of local tools.
pub record LocalTool (V W : Type 0) : Type 0 where
  pub description : String
  pub parameters : Dict V
  pub evidence : Bool
  pub run : Dict V → W → RunResult × W

-- Why the boot failed.
pub data BuildError : Type 0 where
  component_not_implemented manager_error : String → BuildError
  executor_error : Error → BuildError

abbrev pub scope_name : Scope → String
scope_name read_only = "read-only"
scope_name read_write = "read-write"

abbrev pub is_read_only : Scope → Bool
is_read_only read_only = true
is_read_only read_write = false

abbrev pub qualified : {V : Type 0} → Server V → Grant V → String
qualified server grant = concat (server.name ∷ "." ∷ grant.name ∷ [])

-- What the MCP manager does: its construction, a server's binding, its `close`.
pub record Manager (V W : Type 0) : Type 0 where
  pub create : W → Result String Unit × W
  pub bind_server : Server V → W → Result String (List (GrantedTool V W)) × W
  pub close_manager : W → W

-- What binding has done so far: whether the manager was created, the world, the tools or the
-- exception.
pub record Binding (V W : Type 0) : Type 0 where
  pub opened : Bool
  pub world : W
  pub tools : Result BuildError (List (GrantedTool V W))

module _ {V W : Type 0} where
  -- `refuse`
  abbrev pub refuse_run : String → Dict V → W → RunResult × W
  refuse_run name arguments w = (
    refused (
        concat (
          "scope violation: the grant for '" ∷ name
          ∷ "' is read-only but the local tool provides no read-only evidence "
          ∷ "(LocalTool.read_only) — refused at the local-tools boundary" ∷ [])),
    w,
  )

  unfoldable pub bind_local : Server V → Grant V → LocalTool V W → GrantedTool V W
  bind_local server grant impl = record {
    name = qualified server grant;
    scope = scope_name grant.scope;
    description = impl.description;
    parameters = impl.parameters;
    constraints = grant.constraints;
    run =
        if is_read_only grant.scope && not impl.evidence
        then refuse_run (qualified server grant)
        else impl.run;
  }

  abbrev pub and_then :
      Server V
      → Grant V
      → Option (LocalTool V W)
      → Result BuildError (List (GrantedTool V W))
      → Result BuildError (List (GrantedTool V W))
  and_then server grant none rest = err (
      component_not_implemented (
        concat (
          "component not implemented: local tool '" ∷ grant.name ∷ "' (spec.tools['" ∷ server.name
          ∷ "'].allow)" ∷ [])))
  and_then server grant (some impl) (err e) = err e
  and_then server grant (some impl) (ok tools) = ok (bind_local server grant impl ∷ tools)

  -- The loop over the grants of a local server.
  unfoldable pub bind_grants :
      Dict (LocalTool V W) → Server V → List (Grant V) → Result BuildError (List (GrantedTool V W))
  bind_grants registry server [] = ok []
  bind_grants registry server (grant ∷ grants) =
      and_then server grant (Dict.get registry grant.name) (bind_grants registry server grants)

  abbrev pub prepended :
      List (GrantedTool V W)
      → Result BuildError (List (GrantedTool V W))
      → Result BuildError (List (GrantedTool V W))
  prepended tools (err e) = err e
  prepended tools (ok more) = ok (tools ++ more)

  abbrev pub with_tools : List (GrantedTool V W) → Binding V W → Binding V W
  with_tools tools b = record b { tools = prepended tools b.tools }

  -- A server of either kind, then the rest of the loop.
  abbrev pub local_server :
      Result BuildError (List (GrantedTool V W)) → Bool → W → (Bool → W → Binding V W) → Binding V W
  local_server (err e) opened w rest = record { opened = opened; world = w; tools = err e }
  local_server (ok tools) opened w rest = with_tools tools (rest opened w)

  abbrev pub mcp_server :
      Result String (List (GrantedTool V W)) × W → (Bool → W → Binding V W) → Binding V W
  mcp_server (err e, w) rest = record { opened = true; world = w; tools = err (manager_error e) }
  mcp_server (ok tools, w) rest = with_tools tools (rest true w)

  -- The manager is created for the first server that needs it; what raises there leaves none behind.
  abbrev pub start_manager : Manager V W → Bool → W → Result String Unit × W
  start_manager manager true w = (ok tt, w)
  start_manager manager false w = manager.create w

  abbrev pub started : Bool → Result String Unit × W → (W → Binding V W) → Binding V W
  started opened (err e, w) next = record {
    opened = opened;
    world = w;
    tools = err (manager_error e);
  }
  started opened (ok done, w) next = next w

  abbrev pub either_server :
      Dict (LocalTool V W)
      → Manager V W
      → Server V
      → Transport
      → Bool
      → W
      → (Bool → W → Binding V W)
      → Binding V W
  either_server registry manager server local_transport opened w rest =
      local_server (bind_grants registry server server.allow) opened w rest
  either_server registry manager server mcp_transport opened w rest =
      started opened (start_manager manager opened w)
        (λ v. mcp_server (manager.bind_server server v) rest)

  -- The loop over the servers.
  unfoldable pub bind_servers :
      Dict (LocalTool V W) → Manager V W → List (Server V) → Bool → W → Binding V W
  bind_servers registry manager [] opened w = record { opened = opened; world = w; tools = ok [] }
  bind_servers registry manager (server ∷ servers) opened w =
      either_server registry manager server server.transport opened w
        (λ o v. bind_servers registry manager servers o v)

  -- The `except` clause: the exception leaves, the manager's children do not stay.
  abbrev pub fail : Manager V W → Bool → W → BuildError → W × Result BuildError (Executor V W)
  fail manager opened w e = (if opened then manager.close_manager w else w, err e)

  abbrev pub constructed :
      Manager V W → Bool → W → Result Error (Executor V W) → W × Result BuildError (Executor V W)
  constructed manager opened w (err e) = fail manager opened w (executor_error e)
  constructed manager opened w (ok x) = (w, ok x)

  abbrev pub finish_build :
      Host V
      → AgentIdentity
      → AuditLog
      → List String
      → Manager V W
      → Bool
      → W
      → Result BuildError (List (GrantedTool V W))
      → W × Result BuildError (Executor V W)
  finish_build host identity sink auto_approve manager opened w (err e) = fail manager opened w e
  finish_build host identity sink auto_approve manager opened w (ok tools) =
      constructed manager opened w (
        make host identity sink tools auto_approve
          (if opened then manager.close_manager ∷ [] else []) w)

  unfoldable pub build_executor :
      Host V
      → AgentIdentity
      → AuditLog
      → Dict (LocalTool V W)
      → Manager V W
      → List (Server V)
      → List String
      → W
      → W × Result BuildError (Executor V W)
  build_executor host identity sink registry manager servers auto_approve w =
      let b = bind_servers registry manager servers false w in
      finish_build host identity sink auto_approve manager b.opened b.world b.tools
