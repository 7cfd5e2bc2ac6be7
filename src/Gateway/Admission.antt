-- ===== src/Gateway/Admission.antt =====
-- Whom the gate of gateway.py lets in.
use agent_keep.Base.{
  String, true, false, ◌≡◌, ◌↔◌, ◌⊎◌, inl, inr, refl, sym, ap, Option, none, some, List, [], ◌∷◌,
  ◌++◌, Result, ok, err, str_eq, arith, eq_iff, eq_refl, Bool-cases, ok-injective,
}
use agent_keep.Base.Dict
use agent_keep.Base.Dict.{Dict}
use agent_keep.Audit.{
  AgentIdentity, AuditLog, AuditRecord, Status, Event, event_blocks, exactly_one_source,
}
use agent_keep.Messages.{InternalMessage}
use agent_keep.Gateway.Principals.{normalize_roster_id}
use agent_keep.Gateway.Gate.{
  Policy, Tier, AllowlistEntry, GatewayAllowlist, AllowlistGate, Host, is_supported, enroll,
  with_roster, make_gate, principal_of, audit_reject, suffices, is_admitted, resolved, admit,
  owner_only, pairing, tiered, owner, trusted, guest,
}

-- Some entry of the list has the principal and the tier.
abbrev pub Lists : (String → String) → List AllowlistEntry → String → Tier → Type 0
Lists strip [] principal tier = ⊥
Lists strip (e ∷ es) principal tier =
    ((normalize_roster_id strip e.id ≡ principal) × (e.tier ≡ tier)) ⊎ Lists strip es principal tier

-- What a dictionary holds after a new key is put into it.
put_new :
    {V : Type 0} (d : Dict V) (k p : String) (v t : V)
    → Dict.has d k ≡ false
    → (Dict.get (Dict.put d k v) p ≡ some t) ↔ ((Dict.get d p ≡ some t) ⊎ ((k ≡ p) × (v ≡ t)))
put_new d k p v t new = (
  λ h. elim (Bool-cases (str_eq k p)) [
    | inl same ↦ inr ((eq_iff k p).0 same, ground (arith, Dict.get-put d k p v))
    | inr other ↦ inl (ground (arith, Dict.get-put d k p v))
  ],
  λ h. elim h [
    | inl old ↦ elim (Bool-cases (str_eq k p)) [
      | inl same ↦ absurd (let e = (eq_iff k p).0 same in ground arith)
      | inr other ↦ ground (arith, Dict.get-put d k p v)
    ]
    | inr (e, f) ↦ rw (Dict.get-put d k p v, (eq_iff k p).1 e) (ap some f)
  ],
)

-- The roster that the loop builds holds exactly what it held before and what the entries say: no
-- entry hides another.
enroll-Lists :
    (strip : String → String) (d : Dict Tier) (es : List AllowlistEntry) (r : Dict Tier)
    → enroll strip d es ≡ ok r
    → (p : String) (t : Tier)
    → (Dict.get r p ≡ some t) ↔ ((Dict.get d p ≡ some t) ⊎ Lists strip es p t)
unfolding enroll
enroll-Lists strip d [] r e p t =
    let f = ok-injective e in
    (λ h. inl (cc (f, h)), λ h. elim h [ inl a ↦ cc (f, a) | inr a ↦ absurd a ])
enroll-Lists strip d (x ∷ es) r e p t =
    let k = normalize_roster_id strip x.id in
    elim (Bool-cases (Dict.has d k)) [
      | inl twice ↦ absurd (ground arith)
      | inr new ↦
          let ih = enroll-Lists strip (Dict.put d k x.tier) es r (ground arith) p t in
          let pn = put_new d k p x.tier t new in
          (
            λ h. elim (ih.0 h) [
              | inl a ↦ elim (pn.0 a) [ inl b ↦ inl b | inr b ↦ inr (inl b) ]
              | inr a ↦ inr (inr a)
            ],
            λ h. ih.1 (elim h [
              | inl a ↦ inl (pn.1 (inl a))
              | inr (inl b) ↦ inl (pn.1 (inr b))
              | inr (inr b) ↦ inr b
            ]),
          )
    ]

make_gate-opens :
    (host : Host) (allowlist : GatewayAllowlist) (sink : AuditLog) (identity : AgentIdentity)
    (gate : AllowlistGate)
    → make_gate host allowlist sink identity ≡ ok gate
    → (is_supported allowlist.policy ≡ true)
      × (gate.policy ≡ allowlist.policy)
      × (enroll host.strip [] allowlist.roster ≡ ok gate.roster)
unfolding make_gate
make_gate-opens host allowlist sink identity gate e =
    elim (Bool-cases (is_supported allowlist.policy)) [
      | inl known ↦
          let f = rw known at e in
          let (p, r) = opened (enroll host.strip [] allowlist.roster) f in (known, p, r)
      | inr unknown ↦ absurd (ground arith)
    ]
  where
    opened :
        (r : Result String (Dict Tier))
        → with_roster allowlist.policy sink identity r ≡ ok gate
        → (gate.policy ≡ allowlist.policy) × (r ≡ ok gate.roster)
    opened (err m) f = absurd (cc f)
    opened (ok roster) f = let h = ok-injective f in (cc h, cc h)

-- The tiers that a policy lets in: the owner's alone, or every tier.
abbrev pub Permits : Policy → Tier → Type 0
Permits owner_only tier = tier ≡ owner
Permits _ tier = Unit

suffices-Permits :
    (policy : Policy) (tier : Tier) → (suffices policy tier ≡ true) ↔ Permits policy tier
suffices-Permits owner_only owner = (λ e. refl, λ e. refl)
suffices-Permits owner_only trusted = (λ e. absurd (cc e), λ e. absurd (cc e))
suffices-Permits owner_only guest = (λ e. absurd (cc e), λ e. absurd (cc e))
suffices-Permits pairing tier = (λ e. tt, λ e. refl)
suffices-Permits tiered tier = (λ e. tt, λ e. refl)

-- Everyone who is let in, said by the spec's own list: some entry normalizes to the sender's
-- principal, and the policy permits its tier.
abbrev pub IsPermitted : Host → GatewayAllowlist → InternalMessage → Type 0
IsPermitted host allowlist message =
    (tier : Tier) × Lists host.strip allowlist.roster (principal_of message) tier
    × Permits allowlist.policy tier

is_admitted-some :
    (policy : Policy) (o : Option Tier)
    → is_admitted policy o ≡ true
    → (tier : Tier) × (o ≡ some tier) × (suffices policy tier ≡ true)
is_admitted-some policy none e = absurd (cc e)
is_admitted-some policy (some tier) e = (tier, refl, e)

-- One `gateway_reject` record for the message, in the form that the record's validators ask for.
abbrev pub Rejects : AllowlistGate → InternalMessage → AllowlistGate → Type 0
Rejects gate message after =
    (r : AuditRecord) × (after ≡ record gate { audit_sink = gate.audit_sink ++ r ∷ [] })
    × (r.event ≡ Event.gateway_reject)
    × (r.outcome.status ≡ Status.denied)
    × (r.trigger.message_id ≡ some message.id)
    × (exactly_one_source r.trigger ≡ true)
    × (event_blocks r ≡ true)

-- A gate that could be built lets a message through exactly if the spec's own roster permits its
-- sender; the message then only gains the sender's principal as its internal identity, and the gate
-- records nothing. Any other message is dropped, with one valid `gateway_reject` record.
pub admit_decides :
    (host : Host) (allowlist : GatewayAllowlist) (sink : AuditLog) (identity : AgentIdentity)
    (gate : AllowlistGate) (message : InternalMessage)
    → make_gate host allowlist sink identity ≡ ok gate
    → (IsPermitted host allowlist message
        × (admit host gate message ≡ (gate, some (resolved message (principal_of message)))))
      ⊎ ((¬ IsPermitted host allowlist message)
          × ((admit host gate message).1 ≡ none)
          × Rejects gate message (admit host gate message).0)
unfolding admit audit_reject event_blocks exactly_one_source Dict.get
admit_decides host allowlist sink identity gate message e =
    let (_, same, built) = make_gate-opens host allowlist sink identity gate e in
    let principal = principal_of message in
    let tier = Dict.get gate.roster principal in
    let entries = enroll-Lists host.strip [] allowlist.roster gate.roster built principal in
    elim (Bool-cases (is_admitted gate.policy tier)) [
      | inl good ↦
          let (t, found, enough) = is_admitted-some gate.policy tier good in
          inl (
            elim ((entries t).0 found) [
              | inl a ↦ absurd (cc a)
              | inr l ↦ (t, l, (suffices-Permits allowlist.policy t).0 (rw (sym same) enough))
            ],
            rw good refl,
          )
      | inr bad ↦ inr (
        λ (t, l, enough).
            let found = (entries t).1 (inr l) in
            let refused = rw found at bad in
            let kept : suffices gate.policy t ≡ true =
              rw same ((suffices-Permits allowlist.policy t).1 enough) in
            absurd (cc (refused, kept)),
        rw bad refl,
        rw bad (_, refl, refl, refl, refl, refl, refl),
      )
    ]

-- Where the gate is refused: the policy is not one that it enforces, or two entries of the roster
-- are one principal.
abbrev pub Collides : (String → String) → List AllowlistEntry → Type 0
Collides strip [] = ⊥
Collides strip (e ∷ es) =
    ((tier : Tier) × Lists strip es (normalize_roster_id strip e.id) tier) ⊎ Collides strip es

absent_has : {V : Type 0} (d : Dict V) (k : String) → Dict.get d k ≡ none → Dict.has d k ≡ false
absent_has d k e = ground arith

enroll-total :
    (strip : String → String) (d : Dict Tier) (es : List AllowlistEntry)
    → ((p : String) (t : Tier) → Lists strip es p t → Dict.get d p ≡ none)
    → (¬ Collides strip es)
    → (r : Dict Tier) × (enroll strip d es ≡ ok r)
unfolding enroll
enroll-total strip d [] apart clear = (d, refl)
enroll-total strip d (x ∷ es) apart clear =
    let k = normalize_roster_id strip x.id in
    let new = apart k x.tier (inl (refl, refl)) in
    let (r, e) =
      enroll-total strip (Dict.put d k x.tier) es
        (λ p t l. elim (Bool-cases (str_eq k p)) [
          | inl same ↦ absurd (clear (inl (t, rw ((eq_iff k p).0 same) l)))
          | inr other ↦ rw (Dict.get-put d k p x.tier, other) (apart p t (inr l))
        ])
        (λ c. clear (inr c)) in
    (r, rw (absent_has d k new) e)

enroll-apart :
    (strip : String → String) (d : Dict Tier) (es : List AllowlistEntry) (r : Dict Tier)
    → enroll strip d es ≡ ok r
    → ((p : String) (t : Tier) → Lists strip es p t → Dict.get d p ≡ none) × (¬ Collides strip es)
unfolding enroll
enroll-apart strip d [] r e = (λ p t l. absurd l, λ c. c)
enroll-apart strip d (x ∷ es) r e =
    let k = normalize_roster_id strip x.id in
    elim (Bool-cases (Dict.has d k)) [
      | inl twice ↦ absurd (ground arith)
      | inr new ↦
          let (apart, clear) = enroll-apart strip (Dict.put d k x.tier) es r (ground arith) in
          (
            λ p t l. elim l [
              | inl (same, _) ↦ ground arith
              | inr later ↦ let a = apart p t later in ground (arith, Dict.get-put d k p x.tier)
            ],
            λ c. elim c [
              | inl (t, l) ↦
                  let a = apart k t l in
                  absurd (ground (arith, Dict.get-put d k k x.tier, eq_refl k))
              | inr later ↦ clear later
            ],
          )
    ]

-- The gate can be built exactly if it enforces the policy and no two entries of the roster are one
-- principal.
pub make_gate_iff :
    (host : Host) (allowlist : GatewayAllowlist) (sink : AuditLog) (identity : AgentIdentity)
    → ((gate : AllowlistGate) × (make_gate host allowlist sink identity ≡ ok gate))
      ↔ ((is_supported allowlist.policy ≡ true) × (¬ Collides host.strip allowlist.roster))
make_gate_iff host allowlist sink identity = (
  λ (gate, e).
      let (known, _, built) = make_gate-opens host allowlist sink identity gate e in
      (known, (enroll-apart host.strip [] allowlist.roster gate.roster built).1),
  λ (known, clear).
      let (r, e) =
        enroll-total host.strip [] allowlist.roster (λ p t l. unfold Dict.get in refl) clear in
      (
        record { policy = allowlist.policy; roster = r; audit_sink = sink; identity = identity },
        unfold make_gate in rw (known, e) refl,
      ),
)
