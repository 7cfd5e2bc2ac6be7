-- ===== src/Wiring/Admits.antt =====
-- A built spec's own traffic is admitted.
use agent_keep.Base.{
  ℕ, String, Option, some, List, [], ◌∷◌, ◌++◌, ◌≡◌, refl, sym, ◌∙◌, ap, inl, inr, ok, ok-injective,
  All-In, In, codes,
}
use mathlib.Core.Path.{subst}
use agent_keep.Egress.Text.{Text, lower}
use agent_keep.Spec.Tools.{McpTransport, http, HttpTransport, McpServer}
use agent_keep.Spec.Sections.{SpecSections}
use agent_keep.Spec.Validate.{UrlParts}
use agent_keep.Wiring.Targets.{
  EgressTarget, ◌>>=◌, host_or_empty, port_or_default, server_targets, mcp_egress_targets,
  channel_egress_targets, provider_egress_targets, ollama_egress_targets, openai_egress_targets,
  egress_targets,
}
use agent_keep.Wiring.Select.{ensure_buildable}
use agent_keep.Wiring.Covered.{IsAdmitted, IsCovered, ensure_buildable_iff}
use agent_keep.Wiring.Tables.{ollama_default_port, openai_default_port}
use agent_keep.Wiring.Contacts.{Address, Contacts, UrlPort, HasOllamaPorts}
use agent_keep.Wiring.Dialled.{
  webex_address, slack_address, anthropic_address, Dials-address_of, NamesPort-Dials,
  UrlPort-default,
}
use agent_keep.Wiring.Aimed.{
  Aims, Aims-left, Aims-right, Aims-cast, Aims-at, channel_targets-webex, channel_targets-slack,
  provider_targets-anthropic, ollama_tiers-Aims, openai_tiers-Aims, ollama_targets-tier,
  ollama_targets-default, openai_targets-tier, openai_targets-default, bind-ok,
}

server_targets-http :
    (urlsplit : String → Option UrlParts) (name : String) (tr : McpTransport) (t : HttpTransport)
    (parts : UrlParts) (p : Option ℕ) (us : List EgressTarget)
    → tr ≡ http t
    → urlsplit t.url ≡ some parts
    → parts.port ≡ some p
    → server_targets urlsplit name tr ≡ ok us
    → Aims us (lower (codes (host_or_empty parts.hostname)), port_or_default p parts.scheme)
unfolding server_targets ◌>>=◌
server_targets-http urlsplit name tr t parts p us e f g h =
    let q : server_targets urlsplit name (http t) ≡ ok us =
      ap (server_targets urlsplit name) (sym e) ∙ h in
    Aims-cast _ (ok-injective (rw (f, g) at q)) (_, inl refl, refl)

pub mcp_targets-http :
    (urlsplit : String → Option UrlParts) (server : McpServer) (t : HttpTransport)
    (parts : UrlParts) (p : Option ℕ) (ss : List McpServer) (ts : List EgressTarget)
    → In server ss
    → server.transport ≡ http t
    → urlsplit t.url ≡ some parts
    → parts.port ≡ some p
    → mcp_egress_targets urlsplit ss ≡ ok ts
    → Aims ts (lower (codes (host_or_empty parts.hostname)), port_or_default p parts.scheme)
unfolding mcp_egress_targets
mcp_targets-http urlsplit server t parts p [] ts i e f g h = absurd i
mcp_targets-http urlsplit server t parts p (s ∷ ss) ts i e f g h =
    let (us, x, k) = bind-ok (server_targets urlsplit s.name s.transport) _ ts h in
    let (vs, y, z) = bind-ok (mcp_egress_targets urlsplit ss) _ ts k in
    Aims-cast _ (ok-injective z) (elim i [
      | inl q ↦ Aims-left us vs _ (
          server_targets-http urlsplit s.name s.transport t parts p us
            (ap (λ (r : McpServer). r.transport) q ∙ e) f g x)
      | inr r ↦ Aims-right us vs _ (mcp_targets-http urlsplit server t parts p ss vs r e f g y)
    ])

-- Every contact is a target of the guard.
Contacts-Aims :
    {F : Type 0} (urlsplit : String → Option UrlParts) (s : SpecSections F) (a : Address)
    (mcp : List EgressTarget)
    → HasOllamaPorts s.models
    → mcp_egress_targets urlsplit s.tools ≡ ok mcp
    → Contacts urlsplit s a
    → Aims
        (mcp
          ++ (channel_egress_targets 0 s.channels
              ++ (provider_egress_targets s.models
                  ++ (ollama_egress_targets s.models ++ openai_egress_targets s.models))))
        a
Contacts-Aims urlsplit s a mcp ports h c = elim c [
  | Contacts.webex_api w i e ↦
      Aims-at _ (webex_address ∙ e) (in_channels (channel_targets-webex 0 w s.channels i))
  | Contacts.slack_api w i e ↦
      Aims-at _ (slack_address ∙ e) (in_channels (channel_targets-slack 0 w s.channels i))
  | Contacts.anthropic_api q e ↦
      Aims-at _ (anthropic_address ∙ e) (in_provider (provider_targets-anthropic s.models q))
  | Contacts.ollama_default k p f e ↦
      let (host, digits, n) = ports.0 k f in
      Aims-at _ (NamesPort-Dials ollama_default_port 80 k.base_host a host digits n e)
        (in_ollama (ollama_targets-default s.models k p f))
  | Contacts.ollama_tier t k i p f e ↦
      let (host, digits, n) = ports.1 t k i f in
      Aims-at _ (NamesPort-Dials ollama_default_port 80 k.base_host a host digits n e)
        (in_ollama (ollama_targets-tier s.models _ (ollama_tiers-Aims t k s.models.tiers i p f)))
  | Contacts.openai_default k p f e ↦
      Aims-at _ (Dials-address_of openai_default_port k.base_host a e)
        (in_openai (openai_targets-default s.models k p f))
  | Contacts.openai_tier t k i p f e ↦
      Aims-at _ (Dials-address_of openai_default_port k.base_host a e)
        (in_openai (openai_targets-tier s.models _ (openai_tiers-Aims t k s.models.tiers i p f)))
  | Contacts.mcp_server server t parts p host port i q f g hosted dialled e ↦
      Aims-at _ (mcp_address parts p host port hosted dialled ∙ e)
        (Aims-left mcp _ _ (mcp_targets-http urlsplit server t parts p s.tools mcp i q f g h))
]
  where
    mcp_address :
        (parts : UrlParts) (p : Option ℕ) (host : String) (port : ℕ)
        → parts.hostname ≡ some host
        → UrlPort p parts.scheme port
        → ◌≡◌ {A = Address}
            (lower (codes (host_or_empty parts.hostname)), port_or_default p parts.scheme)
            (lower (codes host), port)
    mcp_address parts p host port hosted dialled =
        rw (hosted, UrlPort-default p parts.scheme port dialled) refl

    rest : List EgressTarget
    rest =
        provider_egress_targets s.models
        ++ (ollama_egress_targets s.models ++ openai_egress_targets s.models)

    in_channels :
        {b : Address}
        → Aims (channel_egress_targets 0 s.channels) b
        → Aims (mcp ++ (channel_egress_targets 0 s.channels ++ rest)) b
    in_channels x = Aims-right mcp _ _ (Aims-left _ rest _ x)

    in_provider :
        {b : Address}
        → Aims (provider_egress_targets s.models) b
        → Aims (mcp ++ (channel_egress_targets 0 s.channels ++ rest)) b
    in_provider x =
        Aims-right mcp _ _
          (Aims-right (channel_egress_targets 0 s.channels) rest _ (Aims-left _ _ _ x))

    in_ollama :
        {b : Address}
        → Aims (ollama_egress_targets s.models) b
        → Aims (mcp ++ (channel_egress_targets 0 s.channels ++ rest)) b
    in_ollama x = Aims-right mcp _ _ (
        Aims-right (channel_egress_targets 0 s.channels) rest _
          (Aims-right (provider_egress_targets s.models) _ _ (Aims-left _ _ _ x)))

    in_openai :
        {b : Address}
        → Aims (openai_egress_targets s.models) b
        → Aims (mcp ++ (channel_egress_targets 0 s.channels ++ rest)) b
    in_openai x = Aims-right mcp _ _ (
        Aims-right (channel_egress_targets 0 s.channels) rest _ (
          Aims-right (provider_egress_targets s.models) _ _
            (Aims-right (ollama_egress_targets s.models) _ _ x)))

-- Every address that a component of a built spec contacts, a reply's platform, a model's service or a
-- tool server, is admitted by the allowlist of the spec itself, which is what the proxy enforces, where
-- the Ollama servers name their ports.
pub ensure_buildable-admits :
    {F : Type 0} (urlsplit : String → Option UrlParts) (known : List String) (s : SpecSections F)
    (host : Text) (port : ℕ)
    → ensure_buildable urlsplit known s ≡ ok tt
    → HasOllamaPorts s.models
    → Contacts urlsplit s (host, port)
    → IsAdmitted s.sandbox.egress host port
unfolding egress_targets
ensure_buildable-admits urlsplit known s host port h ports c =
    let (targets, e, covered) = ((ensure_buildable_iff urlsplit known s).0 h).1 in
    let (mcp, f, g) = bind-ok (mcp_egress_targets urlsplit s.tools) _ targets e in
    let (t, i, q) =
      Aims-cast (host, port) (ok-injective g)
        (Contacts-Aims urlsplit s (host, port) mcp ports f c) in
    subst (λ (a : Address). IsAdmitted s.sandbox.egress a.0 a.1) q
      (All-In (IsCovered s.sandbox.egress) targets t covered i)
