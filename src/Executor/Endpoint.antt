-- ===== src/Executor/Endpoint.antt =====
-- What the approval endpoints of executor.py answer, and what they change.
use Prim.Native.String.{len, slice}
use text.Mathlib.Text.{starts_with}
use agent_keep.Base.{
  String, true, false, ◌&&◌, ◌≡◌, refl, Option, none, some, Result, ok, err, arith, ◌⊎◌, inl, inr,
  str_eq, eq_iff, sym, Bool-cases, if_elim, Option_elim, eq_of_some,
}
use agent_keep.Base.Dict
use agent_keep.Base.Dict.{Dict}
use agent_keep.Executor.Types.{Host, ToolResult, Executor, Error, pending_call, already_decided}
use agent_keep.Executor.Decide.{Decision, is_blank, resolve}
use agent_keep.Executor.Resolve.{WasDecided, resolve-WasDecided, resolve_error_kinds}
use agent_keep.Executor.Invariant.{IsValid}
use agent_keep.Executor.Routes.{
  Field, text_value, other_value, Payload, object, other_json, Response, Reply, not_ours, raised,
  reply, configured, presented, authorize, decider_of, path_prefix, guarded, answer, refuse,
  decision_of, decision_name, decided_body, approve_fields, approve_payload, route,
}

decider-named :
    {V : Type 0} (host : Host V) (o : Option Field) (who : String)
    → decider_of host o ≡ some who
    → is_blank host who ≡ false
decider-named host none who e = cc
decider-named host (some other_value) who e = cc
decider-named host (some (text_value t)) who e = ground arith

authorize-refuses :
    {V : Type 0} (o : Option String) (headers : Dict String)
    → ((s : String) → o ≡ some s → str_eq (presented headers) s ≡ false)
    → (response : Response V) × (authorize o headers ≡ some response)
      × (response.status ≡ (elim o [ none ↦ 503 | some s ↦ 401 ]))
unfolding authorize
authorize-refuses none headers wrong = (_, refl, refl)
authorize-refuses (some s) headers wrong =
    (refuse 401 "missing or invalid X-Approval-Secret", rw (wrong s refl), refl)

authorize-accepts :
    {V : Type 0} (o : Option String) (s : String) (headers : Dict String)
    → o ≡ some s
    → str_eq (presented headers) s ≡ true
    → authorize {V = V} o headers ≡ none
unfolding authorize
authorize-accepts none s headers c p = cc
authorize-accepts (some t) s headers c p = rw (eq_of_some c, p)

-- The word for a decision in a request.
abbrev pub word_for : Decision → String
word_for Decision.approve = "approve"
word_for Decision.deny = "deny"

decision_name-word : (d : Decision) → decision_name d ≡ word_for d
decision_name-word Decision.approve = refl
decision_name-word Decision.deny = refl

decision_of-word :
    (o : Option Field) (d : Decision) → decision_of o ≡ some d → o ≡ some (text_value (word_for d))
decision_of-word none d e = cc
decision_of-word (some other_value) d e = cc
decision_of-word (some (text_value t)) d e = elim (Bool-cases (str_eq t "approve")) [
  | inl y ↦ rw (sym (eq_of_some (rw y at e)), (eq_iff t "approve").0 y) refl
  | inr n ↦ elim (Bool-cases (str_eq t "deny")) [
    | inl y ↦ rw (sym (eq_of_some (rw (n, y) at e)), (eq_iff t "deny").0 y) refl
    | inr m ↦ absurd (cc (rw (n, m) at e))
  ]
]

decider_of-text :
    {V : Type 0} (host : Host V) (o : Option Field) (who : String)
    → decider_of host o ≡ some who
    → o ≡ some (text_value who)
decider_of-text host none who e = cc
decider_of-text host (some other_value) who e = cc
decider_of-text host (some (text_value t)) who e = elim (Bool-cases (is_blank host t)) [
  | inl y ↦ absurd (cc (rw y at e))
  | inr n ↦ rw (eq_of_some (rw n at e)) refl
]

-- What a request's body says.
abbrev pub Asks : Option Payload → Decision → String → Type 0
Asks p d who =
    (fields : Dict Field) × (p ≡ some (object fields))
    × (Dict.get fields "decision" ≡ some (text_value (word_for d)))
    × (Dict.get fields "decided_by" ≡ some (text_value who))

-- The text of a request's body.
abbrev pub body_text : Option String → String
body_text body = elim body [ none ↦ "" | some b ↦ b ]

module _ {V W : Type 0} (host : Host V) where
  -- The status of an answer of `_approve`, and what it did to the executor.
  abbrev pub Approves : Executor V W → String → Option Payload → Executor V W × Reply V → Type 0
  Approves x i p (y, not_ours) = ⊥
  Approves x i p (y, raised e) = ⊥
  Approves x i p (y, reply response) =
      ((y ≡ x) × ((response.status ≡ 400) ⊎ (response.status ≡ 404) ⊎ (response.status ≡ 409)))
      ⊎ ((response.status ≡ 200)
          × (d : Decision) × (who : String) × (result : ToolResult) × (response.body
              ≡ decided_body i (word_for d) who result.status result.output)
          × Asks p d who
          × WasDecided host x i d who y result)

  answered :
      (x : Executor V W) (i : String) (p : Option Payload) (d : Decision) (who : String)
      (y : Executor V W) (r : Result Error ToolResult)
      → Asks p d who
      → ((e : Error) × (r ≡ err e)
          × (y ≡ x)
          × (((message : String) × (e ≡ pending_call message))
              ⊎ ((message : String) × (e ≡ already_decided message))))
        ⊎ ((result : ToolResult) × (r ≡ ok result) × WasDecided host x i d who y result)
      → Approves x i p (answer host i d who (y, r))
  answered x i a d who y r asks (inl (e, p, q, inl (m, k))) = rw (p, k) (inl (q, inr (inl refl)))
  answered x i a d who y r asks (inl (e, p, q, inr (m, k))) = rw (p, k) (inl (q, inr (inr refl)))
  answered x i a d who y r asks (inr (result, p, w)) =
      rw (p, decision_name-word d) (inr (refl, d, who, result, refl, asks, w))

  answer-Approves :
      (x : Executor V W) (i : String) (p : Option Payload) (d : Decision) (who : String)
      → Asks p d who
      → IsValid x
      → is_blank host who ≡ false
      → Approves x i p (answer host i d who (resolve host x i d who))
  answer-Approves x i a d who asks v named =
      answered x i a d who (resolve host x i d who).0 (resolve host x i d who).1 asks
        (elim (resolve-WasDecided host x i d who) [
          | inl (e, p, q) ↦ inl (
            e,
            p,
            q,
            resolve_error_kinds host x i d who e named
                (λ entry h. let (tool, t, _) = v.parked i entry h in (tool, t)) p,
          )
          | inr w ↦ inr w
        ])

  fields-Approves :
      (x : Executor V W) (i : String) (fields : Dict Field) (d : Option Decision)
      → IsValid x
      → decision_of (Dict.get fields "decision") ≡ d
      → Approves x i
          (some (object fields))
          (approve_fields host x i d (decider_of host (Dict.get fields "decided_by")))
  unfolding approve_fields
  fields-Approves x i fields none v f = inl (refl, inl refl)
  fields-Approves x i fields (some d) v f =
      let o = Dict.get fields "decided_by" in
      Option_elim
        (λ who.
          decider_of host o ≡ who
          → Approves x i (some (object fields)) (approve_fields host x i (some d) who))
        (decider_of host o) (λ _ _. inl (refl, inl refl))
        (λ who _ e.
          answer-Approves x i (some (object fields)) d who
            (
              fields,
              refl,
              decision_of-word (Dict.get fields "decision") d f,
              decider_of-text host o who e,
            )
            v (decider-named host o who e))
        refl

  payload-Approves :
      (x : Executor V W) (i : String) (p : Option Payload)
      → IsValid x
      → Approves x i p (approve_payload host x i p)
  unfolding approve_payload
  payload-Approves x i none v = inl (refl, inl refl)
  payload-Approves x i (some other_json) v = inl (refl, inl refl)
  payload-Approves x i (some (object fields)) v = fields-Approves x i fields _ v refl

  -- With no configured secret, or without that very secret in the header, no request to any path
  -- changes the executor, and none that is for these routes is answered with anything but 503 or 401.
  route_unauthorized :
      (loads : String → Option Payload) (secret : Option String) (x : Executor V W)
      (method path : String) (headers : Dict String) (body : Option String)
      → ((s : String) → configured secret ≡ some s → str_eq (presented headers) s ≡ false)
      → let (y, r) = route host loads secret x method path headers body in
        (y ≡ x)
        × ((r ≡ not_ours)
            ⊎ ((response : Response V) × (r ≡ reply response)
                × (response.status ≡ (elim (configured secret) [ none ↦ 503 | some s ↦ 401 ]))))
  unfolding route authorize
  route_unauthorized loads secret x method path headers body wrong =
      let (response, e, st) = authorize-refuses {V = V} (configured secret) headers wrong in
      rw (e, guarded)
        (if_elim Refused (str_eq path "/pending" && str_eq method "GET") _ _
          (λ _. (refl, inr (response, refl, st)))
          (λ _.
            if_elim Refused (starts_with path path_prefix && str_eq method "POST") _ _
              (λ _. (refl, inr (response, refl, st))) (λ _. (refl, inl refl))))
    where
      Refused : Executor V W × Reply V → Type 0
      Refused (y, r) =
          (y ≡ x)
          × ((r ≡ not_ours)
              ⊎ ((response : Response V) × (r ≡ reply response)
                  × (response.status ≡ (elim (configured secret) [ none ↦ 503 | some s ↦ 401 ]))))

  -- A request to the approval path with the configured secret never lets an exception out: a 400,
  -- 404 or 409 leaves the executor as it was; a 200 says that the call in the path was decided as
  -- `resolve` decides it, with the decision and the decider that the body names, which it repeats.
  pub route-Approves :
      (loads : String → Option Payload) (secret : Option String) (x : Executor V W)
      (s path : String) (headers : Dict String) (body : Option String)
      → IsValid x
      → configured secret ≡ some s
      → str_eq (presented headers) s ≡ true
      → starts_with path path_prefix ≡ true
      → Approves x
          (slice path (len path_prefix) (len path))
          (loads (body_text body))
          (route host loads secret x "POST" path headers body)
  unfolding route authorize
  route-Approves loads secret x s path headers body v c p h =
      let path_of = slice path (len path_prefix) (len path) in
      let Answered : Executor V W × Reply V → Type 0 =
        Approves x path_of (loads (body_text body)) in
      rw (authorize-accepts {V = V} (configured secret) s headers c p, guarded)
        (if_elim Answered (str_eq path "/pending" && false) _ _ (λ e. absurd (ground arith))
          (λ _.
            if_elim Answered (starts_with path path_prefix && true) _ _
              (λ _. payload-Approves x path_of _ v) (λ e. absurd (ground arith))))
