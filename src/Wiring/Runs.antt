-- ===== src/Wiring/Runs.antt =====
-- What a built spec meets at run time: the proxy (Egress/Proxy) under the spec's allowlist, and the
-- registry of local tools (Executor/Build).
use agent_keep.Base.{
  String, Bool, true, false, Option, some, List, [], ◌∷◌, ◌≡◌, inl, inr, refl, ok, All, All-In, In,
  Bool-cases, eq_iff, str_eq,
}
use agent_keep.Base.Dict
use agent_keep.Base.Dict.{Dict}
use agent_keep.Egress.Text.{Text}
use agent_keep.Egress.Proxy.{
  ParsedRequest, received, Upstream, connected, unreachable, broken, Network, Config, Kind, relay,
  reach, enforce, proxy_connection,
}
use agent_keep.Executor.Types.{GrantedTool}
use agent_keep.Executor.Build.{
  Transport, local_transport, mcp_transport, Server, LocalTool, bind_local, bind_grants,
}
use agent_keep.Spec.Tools.{ConstraintValue, McpTransport, stdio, http, local, ToolGrant, McpServer}
use agent_keep.Spec.Sections.{SpecSections}
use agent_keep.Spec.Validate.{UrlParts}
use agent_keep.Wiring.Targets.{entries}
use agent_keep.Wiring.Select.{ensure_buildable}
use agent_keep.Wiring.Covered.{ensure_buildable_iff}
use agent_keep.Wiring.Contacts.{Contacts, HasOllamaPorts}
use agent_keep.Wiring.Admits.{ensure_buildable-admits}

relay_contacts :
    (c : Config) (cid : String) (request : ParsedRequest) (entry : Text) (net : Network) (k : Kind)
    (works : Bool)
    → (relay c cid request entry net k works).contacted ≡ true
relay_contacts c cid request entry net Kind.connect_kind true = refl
relay_contacts c cid request entry net Kind.absolute_kind true = refl
relay_contacts c cid request entry net Kind.connect_kind false = refl
relay_contacts c cid request entry net Kind.absolute_kind false = refl

reach_contacts :
    (c : Config) (cid : String) (request : ParsedRequest) (entry : Text) (net : Network)
    (u : Upstream)
    → (reach c cid request entry net u).contacted ≡ true
reach_contacts c cid request entry net connected =
    relay_contacts c cid request entry net request.kind net.first_write
reach_contacts c cid request entry net unreachable = refl
reach_contacts c cid request entry net broken = refl

-- The proxy turns to its target on every request that goes where a built spec's components make them
-- (the platforms' fixed addresses, the base hosts of model servers as the runner puts them into URLs, and
-- the URLs of tool servers), where it runs under the spec's allowlist and every Ollama server of the spec
-- names its port: without one the runner's URL means port 80, and the guard checks 11434.
pub proxy_connection-contacts :
    {F : Type 0} (urlsplit : String → Option UrlParts) (known : List String) (s : SpecSections F)
    (c : Config) (cid : String) (request : ParsedRequest) (net : Network)
    → ensure_buildable urlsplit known s ≡ ok tt
    → HasOllamaPorts s.models
    → c.allowlist ≡ entries s.sandbox.egress
    → Contacts urlsplit s (request.host, request.port)
    → (proxy_connection c cid (received request) net).contacted ≡ true
unfolding proxy_connection
proxy_connection-contacts urlsplit known s c cid request net h ports e k =
    let (entry, q) = ensure_buildable-admits urlsplit known s request.host request.port h ports k in
    rw (e, q, enforce) (reach_contacts c cid request entry net net.upstream)

abbrev pub transport_of : McpTransport → Transport
transport_of (stdio t) = mcp_transport
transport_of (http t) = mcp_transport
transport_of local = local_transport

-- A server of the spec as `build_executor` takes it.
abbrev pub as_server : McpServer → Server ConstraintValue
as_server s = record { name = s.name; transport = transport_of s.transport; allow = s.allow }

module _ {W : Type 0} where
  get_of_key :
      (registry : Dict (LocalTool ConstraintValue W)) (n : String)
      → In n (Dict.keys registry)
      → (impl : LocalTool ConstraintValue W) × (Dict.get registry n ≡ some impl)
  unfolding Dict.get
  get_of_key [] n i = absurd i
  get_of_key ((k, v) ∷ d) n i = elim (Bool-cases (str_eq k n)) [
    | inl y ↦ (v, rw y refl)
    | inr f ↦ elim i [ inl e ↦ absurd (cc (f, (eq_iff k n).1 e)) | inr r ↦ rw f (get_of_key d n r) ]
  ]

  bind_grants_total :
      (registry : Dict (LocalTool ConstraintValue W)) (server : Server ConstraintValue)
      (gs : List ToolGrant)
      → All (λ (g : ToolGrant). In g.name (Dict.keys registry)) gs
      → (tools : List (GrantedTool ConstraintValue W)) × (bind_grants registry server gs ≡ ok tools)
  unfolding bind_grants
  bind_grants_total registry server [] h = ([], refl)
  bind_grants_total registry server (g ∷ gs) h =
      let (impl, e) = get_of_key registry g.name h.0 in
      let (tools, f) = bind_grants_total registry server gs h.1 in
      (bind_local server g impl ∷ tools, rw (e, f) refl)

  -- The boot finds an implementation for every grant of a built spec's local servers, where the guard
  -- knew the registry that the boot binds to.
  pub bind_grants-buildable :
      {F : Type 0} (urlsplit : String → Option UrlParts)
      (registry : Dict (LocalTool ConstraintValue W)) (s : SpecSections F) (server : McpServer)
      → ensure_buildable urlsplit (Dict.keys registry) s ≡ ok tt
      → In server s.tools
      → server.transport ≡ local
      → (tools : List (GrantedTool ConstraintValue W)) × (bind_grants registry
            (as_server server)
            server.allow
          ≡ ok tools)
  bind_grants-buildable urlsplit registry s server h i e =
      let b = ((ensure_buildable_iff urlsplit (Dict.keys registry) s).0 h).0 in
      bind_grants_total registry (as_server server) server.allow
        (All-In _ s.tools server b.tools i e)
