-- ===== src/Egress/Audit.antt =====
-- What the proxy of keep_egress/proxy.py lets out, and what it records of it.
use agent_keep.Base.{
  String, Bool, true, false, ◌≡◌, refl, ◌⊎◌, inl, inr, Option, none, some, [], All, Option-cases,
}
use agent_keep.Egress.Text.{Text}
use agent_keep.Egress.Match.{match_allowlist}
use agent_keep.Egress.Proxy.{
  Action, connect, open_tunnel, Verdict, allowed, denied, invalid, EgressAuditRecord, Kind,
  connect_kind, absolute_kind, ParsedRequest, Received, unreadable, head_raised, received, Upstream,
  connected, unreachable, broken, Network, Attempt, Config, make_record, target_of, relay, reach,
  enforce, proxy_connection, closing_record,
}

abbrev pub Says :
    Config → String → ParsedRequest → Action → Verdict → Option Text → EgressAuditRecord → Type 0
Says c cid request action verdict matched r =
    (r.agent ≡ c.agent)
    × (r.action ≡ action)
    × (r.target ≡ target_of request)
    × (r.verdict ≡ verdict)
    × (r.matched_entry ≡ matched)
    × (r.connection_id ≡ cid)

-- The record of a connection that raised after the allowlist had let it out.
abbrev pub Broken : String → Network → Attempt → EgressAuditRecord → Type 0
Broken fresh net a r =
    ((net.upstream ≡ broken) ⊎ ((net.upstream ≡ connected) × (net.first_write ≡ false)))
    × (a.opened ≡ [])
    × (r.action ≡ connect)
    × (r.verdict ≡ denied)
    × (r.target ≡ invalid)
    × (r.matched_entry ≡ none)
    × (r.connection_id ≡ fresh)

-- An attempt that was let out: the record at its end says so under the matched entry, and so does the
-- record of its tunnel's opening, if there is one; or the connection raised.
abbrev pub LetOut : Config → String → String → Network → ParsedRequest → Text → Attempt → Type 0
LetOut c cid fresh net request entry a =
    (a.contacted ≡ true)
    × All (Says c cid request open_tunnel allowed (some entry)) a.opened
    × (Says c cid request connect allowed (some entry) (closing_record c fresh a.returned)
        ⊎ Broken fresh net a (closing_record c fresh a.returned))

module _ (c : Config) (cid fresh : String) (request : ParsedRequest) (entry : Text)
    (net : Network) where
  relay-LetOut :
      (k : Kind) (b : Bool)
      → net.upstream ≡ connected
      → net.first_write ≡ b
      → LetOut c cid fresh net request entry (relay c cid request entry net k b)
  unfolding make_record
  relay-LetOut connect_kind true u w =
      (refl, ((refl, refl, refl, refl, refl, refl), tt), inl (refl, refl, refl, refl, refl, refl))
  relay-LetOut absolute_kind true u w = (refl, tt, inl (refl, refl, refl, refl, refl, refl))
  relay-LetOut k false u w = (refl, tt, inr (inr (u, w), refl, refl, refl, refl, refl, refl))

  reach-LetOut :
      (u : Upstream)
      → net.upstream ≡ u
      → LetOut c cid fresh net request entry (reach c cid request entry net u)
  unfolding make_record
  reach-LetOut connected u = relay-LetOut request.kind net.first_write u refl
  reach-LetOut unreachable u = (refl, tt, inl (refl, refl, refl, refl, refl, refl))
  reach-LetOut broken u = (refl, tt, inr (inl u, refl, refl, refl, refl, refl, refl))

-- An attempt that was refused: nothing turned to the target, and the one record says `denied`. The
-- client was told 400 or 403, or nothing where the parser of its head raised.
abbrev pub Refused : Config → String → String → Received → Attempt → Type 0
Refused c cid fresh head a =
    let r = closing_record c fresh a.returned in
    (a.contacted ≡ false)
    × (a.opened ≡ [])
    × (r.action ≡ connect)
    × (r.verdict ≡ denied)
    × (r.matched_entry ≡ none)
    × ((((a.answered ≡ some 400) ⊎ (a.answered ≡ some 403)) × (r.connection_id ≡ cid))
        ⊎ ((head ≡ head_raised) × (a.answered ≡ none) × (r.connection_id ≡ fresh)))

pub proxy_connection_enforces :
    (c : Config) (cid fresh : String) (head : Received) (net : Network)
    → Refused c cid fresh head (proxy_connection c cid head net)
      ⊎ ((request : ParsedRequest) × (entry : Text) × (head ≡ received request)
          × (match_allowlist c.allowlist request.host request.port ≡ some entry)
          × LetOut c cid fresh net request entry (proxy_connection c cid head net))
unfolding proxy_connection make_record
proxy_connection_enforces c cid fresh unreadable net =
    inl (refl, refl, refl, refl, refl, inl (inl refl, refl))
proxy_connection_enforces c cid fresh head_raised net =
    inl (refl, refl, refl, refl, refl, inr (refl, refl, refl))
proxy_connection_enforces c cid fresh (received request) net =
    elim (Option-cases (match_allowlist c.allowlist request.host request.port)) [
      | inl none_covers ↦
          inl (rw (none_covers, enforce) (refl, refl, refl, refl, refl, inl (inr refl, refl)))
      | inr (entry, covers) ↦ inr (
        request,
        entry,
        refl,
        covers,
        rw (covers, enforce) (reach-LetOut c cid fresh request entry net net.upstream refl),
      )
    ]
