-- ===== src/Egress/Slots.antt =====
-- The connection slots of keep_egress/proxy.py, and the records of the accepted connections.
use agent_keep.Base.{
  ℕ, suc, ◌+◌, ◌≤◌, String, Bool, true, false, ◌≡◌, refl, inl, inr, Option, none, some, List, [],
  ◌∷◌, ◌++◌, arith, length, All, if◌then◌else◌, Bool-cases, Option-cases, ◌∙◌,
}
use agent_keep.Egress.Text.{Text}
use agent_keep.Egress.Proxy.{
  Action, connect, open_tunnel, Verdict, allowed, EgressAuditRecord, ParsedRequest, Received,
  Network, Config, make_record, proxy_connection, closing_record, EgressProxy, start, safe_append,
  leave, Event, arrive, establish, finish, is_full, release, step, run,
}
use agent_keep.Egress.Audit.{Says, proxy_connection_enforces}

-- The slots in use are the tasks in flight, and never more than the cap.
pub record IsBounded (p : EgressProxy) : Type 0 where
  pub counted : p.active ≡ length p.tasks
  pub capped : p.active ≤ p.config.max_connections

leave-length :
    (cid : String) (tasks rest : List String)
    → leave cid tasks ≡ some rest
    → length tasks ≡ suc (length rest)
unfolding leave
leave-length cid [] rest e = cc
leave-length cid (t ∷ ts) rest e = elim (Option-cases (leave cid ts)) [
  | inl gone ↦ ground arith
  | inr (more, e') ↦ ground (arith, leave-length cid ts more e')
]

release-IsBounded :
    (p : EgressProxy) (fresh : String) (r : Option EgressAuditRecord) (works : Bool)
    (o : Option (List String))
    → ((rest : List String) → o ≡ some rest → length p.tasks ≡ suc (length rest))
    → IsBounded p
    → IsBounded (release p fresh r works o)
release-IsBounded p fresh r works none h v = v
release-IsBounded p fresh r works (some rest) h v = record {
  counted = omega (arith, h rest refl, v.counted);
  capped = omega (arith, v.capped);
}

step-IsBounded : (p : EgressProxy) (e : Event) → IsBounded p → IsBounded (step p e)
unfolding step
step-IsBounded p (arrive cid) v = ground arith
step-IsBounded p (establish cid request net works) v = record {
  counted = v.counted;
  capped = v.capped;
}
step-IsBounded p (finish cid fresh request net works) v =
    release-IsBounded p fresh (proxy_connection p.config cid request net).returned works
      (leave cid p.tasks) (leave-length cid p.tasks) v

run-IsBounded_from : (p : EgressProxy) (es : List Event) → IsBounded p → IsBounded (run p es)
unfolding run
run-IsBounded_from p [] v = v
run-IsBounded_from p (e ∷ es) v = run-IsBounded_from (step p e) es (step-IsBounded p e v)

-- In whatever order clients connect, tunnels open and connections end, and whether or not the audit
-- sink takes the records, the slots in use are the connections in flight and stay within the cap: no
-- slot is leaked.
pub run-IsBounded : (c : Config) (es : List Event) → IsBounded (run (start c) es)
run-IsBounded c es =
    run-IsBounded_from (start c) es (record { counted = refl; capped = omega arith })

-- How many records of a connection's end a log holds.
abbrev is_connect : Action → ℕ
is_connect connect = 1
is_connect open_tunnel = 0

unfoldable pub connects : List EgressAuditRecord → ℕ
connects [] = 0
connects (r ∷ rs) = is_connect r.action + connects rs

connects-append : (xs ys : List EgressAuditRecord) → connects (xs ++ ys) ≡ connects xs + connects ys
unfolding connects
connects-append [] ys = omega arith
connects-append (r ∷ rs) ys = omega (arith, connects-append rs ys)

-- The sink takes every record.
abbrev pub Works : Event → Type 0
Works (arrive cid) = Unit
Works (establish cid request net works) = works ≡ true
Works (finish cid fresh request net works) = works ≡ true

-- The connections that a run lets in.
unfoldable pub accepted : EgressProxy → List Event → ℕ
unfolding step
accepted p [] = 0
accepted p (arrive cid ∷ es) = (if is_full p then 0 else 1) + accepted (step p (arrive cid)) es
accepted p (e ∷ es) = accepted (step p e) es

silent :
    (c : Config) (cid : String) (request : ParsedRequest) (v : Verdict) (m : Option Text)
    (rs : List EgressAuditRecord)
    → All (Says c cid request open_tunnel v m) rs
    → connects rs ≡ 0
unfolding connects
silent c cid request v m [] h = refl
silent c cid request v m (r ∷ rs) h = rw (h.0.1, is_connect, silent c cid request v m rs h.1)

opened-silent :
    (c : Config) (cid : String) (head : Received) (net : Network)
    → connects (proxy_connection c cid head net).opened ≡ 0
opened-silent c cid head net = elim (proxy_connection_enforces c cid cid head net) [
  | inl refused ↦ rw refused.1 (unfold connects in refl)
  | inr (request, entry, _, _, out) ↦ silent c cid request allowed (some entry) _ out.1
]

closing-connect :
    (c : Config) (cid fresh : String) (head : Received) (net : Network)
    → (closing_record c fresh (proxy_connection c cid head net).returned).action ≡ connect
unfolding make_record
closing-connect c cid fresh head net = elim (proxy_connection_enforces c cid fresh head net) [
  | inl (_, _, a, _, _, _) ↦ a
  | inr (request, entry, _, _, out) ↦ elim out.2 [
    | inl says ↦ says.1
    | inr (_, _, a, _, _, _, _) ↦ a
  ]
]

release-connects :
    (p : EgressProxy) (fresh : String) (r : Option EgressAuditRecord) (o : Option (List String))
    → (closing_record p.config fresh r).action ≡ connect
    → ((rest : List String) → o ≡ some rest → length p.tasks ≡ suc (length rest))
    → let q = release p fresh r true o in
      connects q.sink + length q.tasks ≡ connects p.sink + length p.tasks
release-connects p fresh r none a h = refl
release-connects p fresh r (some rest) a h = omega (
  arith,
  h rest refl,
  connects-append p.sink (closing_record p.config fresh r ∷ []),
  one_connect (closing_record p.config fresh r) a,
)
  where
    one_connect : (c : EgressAuditRecord) → c.action ≡ connect → connects (c ∷ []) ≡ 1
    one_connect c e = unfold connects in rw (e, is_connect)

-- With a sink that takes every record, each connection that was let in is in flight or has left
-- exactly one record of its end: none is lost and none is written twice, in any interleaving.
pub run-connects :
    (p : EgressProxy) (es : List Event)
    → All Works es
    → let q = run p es in
      connects q.sink + length q.tasks ≡ connects p.sink + length p.tasks + accepted p es
unfolding run accepted
run-connects p [] h = omega arith
run-connects p (arrive cid ∷ es) h = elim (Bool-cases (is_full p)) [
  | inl full ↦ ground (arith, run-connects (step p (arrive cid)) es h.1)
  | inr room ↦ ground (arith, run-connects (step p (arrive cid)) es h.1)
]
run-connects p (establish cid request net works ∷ es) h =
    omega
      (arith, run-connects (step p (establish cid request net works)) es h.1, established works h.0)
  where
    established :
        (w : Bool)
        → w ≡ true
        → connects (safe_append w p.sink (proxy_connection p.config cid request net).opened)
          ≡ connects p.sink
    established true e =
        connects-append p.sink _ ∙ omega (arith, opened-silent p.config cid request net)
    established false e = cc
run-connects p (finish cid fresh request net works ∷ es) h =
    omega
      (arith, run-connects (step p (finish cid fresh request net works)) es h.1, released works h.0)
  where
    released :
        (w : Bool)
        → w ≡ true
        → let q = step p (finish cid fresh request net w) in
          connects q.sink + length q.tasks ≡ connects p.sink + length p.tasks
    released true e =
        release-connects p fresh (proxy_connection p.config cid request net).returned
          (leave cid p.tasks) (closing-connect p.config cid fresh request net)
          (leave-length cid p.tasks)
    released false e = cc
