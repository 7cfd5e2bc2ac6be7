-- ===== src/Executor/Tests.antt =====
-- An executor with one tool, and the theorems about executors at work on it.
use Prim.Native.String.{slice}
use agent_keep.Base.{
  ℕ, suc, String, true, ◌≡◌, ◌⊎◌, refl, sort_names, Option, none, some, List, [], ◌∷◌, ◌++◌, ok,
  err, ◌==◌, join, contains, All,
}
use agent_keep.Base.Dict
use agent_keep.Base.Dict.{Dict}
use agent_keep.Audit.{AgentIdentity, Trigger, AuditLog, Status, event_blocks}
use agent_keep.Executor.Types.{
  Host, ToolCallRequest, ToolResult, returned, GrantedTool, CallState, PendingCall, Executor, Error,
  already_decided, pins_of,
}
use agent_keep.Executor.Calls.{
  register, without_names, overridden_keys, make, make_with, run_tool, finish_run, granted_call,
  dispatch, park, execute,
}
use agent_keep.Executor.Decide.{approve, deny, decide, with_tool, with_entry, resolve}
use agent_keep.Executor.Audited.{IsAudited, execute-IsAudited}
use agent_keep.Executor.Gate.{Forced, Unrun, execute_default_deny, execute_forces_pins}
use agent_keep.Executor.Resolve.{WasDecided, resolve-WasDecided}
use agent_keep.Executor.Once.{run-resolve_once}
use agent_keep.Executor.Invariant.{IsValid, Parked, make-IsValid, execute-IsValid}
use agent_keep.Executor.History.{
  Op, request, decision, run, step, run-Parked, run_without_approval, run-append_only,
}
use agent_keep.Executor.Routes.{Payload, object, other_json, text_value, route}
use agent_keep.Executor.Endpoint.{Approves, route-Approves}

abbrev host : Host ℕ
host = record {
  same = ◌==◌;
  dumps = λ d. "{}";
  sha256 = λ s. s;
  repr_list = join ", ";
  repr = λ s. s;
  strip = λ s. s;
}

abbrev identity : AgentIdentity
identity = record { slug = "scribe"; spec_version = "1"; image_digest = "sha256:0" }

abbrev trigger : Trigger
trigger = record { message_id = some "m1"; trigger_id = none; purpose = "reply" }

-- A tool that counts its runs, with a pinned recipient.
abbrev mail : GrantedTool ℕ ℕ
mail = record {
  name = "mail.send";
  scope = "write";
  description = "sends a mail";
  parameters = ("to", 0) ∷ ("subject", 0) ∷ [];
  constraints = some (("to", 7) ∷ []);
  run = λ arguments w. (returned "sent", suc w);
}

abbrev call : ToolCallRequest ℕ
call = record { id = "c1"; name = "mail.send"; arguments = ("subject", 3) ∷ [] }

-- A call that asks for another recipient than the pinned one.
abbrev diverted : ToolCallRequest ℕ
diverted = record { id = "c2"; name = "mail.send"; arguments = ("to", 8) ∷ [] }

abbrev built : List String → Executor ℕ ℕ
built auto_approve = record {
  identity = identity;
  sink = [];
  closers = [];
  tools = ("mail.send", mail) ∷ [];
  auto_approve = auto_approve;
  pending = [];
  world = 0;
}

abbrev guarded : Executor ℕ ℕ
guarded = built []

abbrev trusting : Executor ℕ ℕ
trusting = built ("mail.send" ∷ [])

-- The guarded executor once the call is parked.
abbrev parked : Executor ℕ ℕ
parked = record guarded {
  pending =
      (
        "p1",
        record {
          call_id = "p1";
          call = call;
          arguments = ("subject", 3) ∷ ("to", 7) ∷ [];
          trigger = trigger;
          requested_at = "now";
          state = CallState.pending;
          decided_by = none;
          result = none;
        },
      )
      ∷ [];
}

mail-Distinct : Dict.Distinct (pins_of mail)
unfolding Dict.get
mail-Distinct = (refl, tt)

default_deny_example :
    (result : ToolResult) × ((execute host "p1" "now" guarded call (some trigger)).1 ≡ ok result)
    × Unrun host guarded ((execute host "p1" "now" guarded call (some trigger)).0, result)
unfolding contains
default_deny_example = execute_default_deny host "p1" "now" guarded call trigger refl

forces_pins_example :
    (arguments : Dict ℕ) × ((execute host "p1" "now" trusting call (some trigger)).0.world
      ≡ (mail.run arguments 0).1)
    × Forced (pins_of mail) call.arguments arguments
unfolding contains overridden_keys Dict.get
forces_pins_example =
    execute_forces_pins host "p1" "now" trusting call trigger mail refl refl refl mail-Distinct

execute-IsAudited_example :
    ((execute host "p1" "now" guarded call none).0 ≡ guarded)
    × (result : ToolResult) × ((execute host "p1" "now" guarded call (some trigger)).1 ≡ ok result)
    × IsAudited host guarded trigger
        ((execute host "p1" "now" guarded call (some trigger)).0, result)
execute-IsAudited_example = execute-IsAudited host "p1" "now" guarded call trigger

resolve-WasDecided_example :
    let (y, r) = resolve host parked "p1" approve "ada" in
    ((e : Error) × (r ≡ err e) × (y ≡ parked))
    ⊎ ((result : ToolResult) × (r ≡ ok result) × WasDecided host parked "p1" approve "ada" y result)
resolve-WasDecided_example = resolve-WasDecided host parked "p1" approve "ada"

abbrev sent : ToolResult
sent = record { call_id = "c1"; name = "mail.send"; status = Status.ok; output = "sent" }

once_example :
    let y =
      run host
        (resolve host parked "p1" approve "ada").0
        (request "p2" "later" call (some trigger) ∷ decision "p2" approve "ada" ∷ []) in
    (text : String) × (resolve host y "p1" deny "bob" ≡ (y, err (already_decided text)))
unfolding resolve with_entry with_tool decide run_tool finish_run Dict.get
once_example =
    run-resolve_once host parked "p1" approve deny "ada" "bob" sent
      (request "p2" "later" call (some trigger) ∷ decision "p2" approve "ada" ∷ []) refl
      (refl, (tt, tt)) refl

abbrev requests : List (Op ℕ)
requests = request "p1" "now" call (some trigger) ∷ decision "p1" deny "ada" ∷ []

abbrev waiting : PendingCall ℕ
waiting = record {
  call_id = "p1";
  call = call;
  arguments = ("subject", 3) ∷ ("to", 7) ∷ [];
  trigger = trigger;
  requested_at = "now";
  state = CallState.pending;
  decided_by = none;
  result = none;
}

parked_example : Parked (run host guarded (request "p1" "now" call (some trigger) ∷ [])) waiting
unfolding make register without_names run step execute dispatch granted_call overridden_keys
    contains park Dict.merge Dict.get Dict.put make_with sort_names
parked_example =
    run-Parked host identity [] (mail ∷ []) [] [] 0 guarded
      (request "p1" "now" call (some trigger) ∷ []) "p1" waiting (mail-Distinct, tt) refl refl

without_approval_example : (run host guarded requests).world ≡ 0
without_approval_example = run_without_approval host guarded requests refl (tt, (tt, tt))

append_only_example :
    (more : AuditLog) × ((run host guarded requests).sink ≡ [] ++ more)
    × All (λ r. event_blocks r ≡ true) more
append_only_example = run-append_only host guarded requests

abbrev loads : String → Option Payload
loads body = some other_json

-- The guarded executor after it has parked the call.
abbrev asked : Executor ℕ ℕ
asked = (execute host "p1" "now" guarded call (some trigger)).0

asked-IsValid : IsValid asked
unfolding make register without_names make_with sort_names Dict.get Dict.put
asked-IsValid =
    execute-IsValid host "p1" "now" guarded call (some trigger)
      (make-IsValid host identity [] (mail ∷ []) [] [] 0 guarded (mail-Distinct, tt) refl)

abbrev consent : String → Option Payload
consent body =
    some (object (("decision", text_value "approve") ∷ ("decided_by", text_value "ada") ∷ []))

approves_example : Approves host asked (slice "/approve/p1" 9 11) (consent "") (
    route host consent (some "s") asked "POST" "/approve/p1" (("x-approval-secret", "s") ∷ []) none)
unfolding Dict.get
approves_example =
    route-Approves host consent (some "s") asked "s" "/approve/p1" (("x-approval-secret", "s") ∷ [])
      none asked-IsValid refl refl refl
