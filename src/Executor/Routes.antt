-- ===== src/Executor/Routes.antt =====
-- `ApprovalHttpRoutes` of executor.py: the owner-only endpoints of the pending-approval flow.
use Prim.Native.String.{len, slice}
use text.Mathlib.Text.{starts_with}
use agent_keep.Base.{
  ℕ, String, not, ◌&&◌, Option, none, some, List, Result, ok, err, str_eq, if◌then◌else◌,
}
use agent_keep.Base.Dict
use agent_keep.Base.Dict.{Dict}
use agent_keep.Audit.{Status}
use agent_keep.Executor.Types.{Host, ToolResult, Executor, Error, pending_call, already_decided}
use agent_keep.Executor.Decide.{PendingView, Decision, approve, deny, is_blank, pending, resolve}

-- What the handler tells apart in a parsed JSON body: an object, whose fields are texts or not.
pub data Field : Type 0 where
  text_value : String → Field
  other_value : Field

pub data Payload : Type 0 where
  object : Dict Field → Payload
  other_json : Payload

pub data Body (V : Type 0) : Type 0 where
  error_body : String → Body V
  pending_body : List (PendingView V) → Body V
  decided_body : String → String → String → Status → String → Body V

pub record Response (V : Type 0) : Type 0 where
  pub status : ℕ
  pub body : Body V

-- `None`, an exception, or a response.
pub data Reply (V : Type 0) : Type 0 where
  not_ours : Reply V
  raised : Error → Reply V
  reply : Response V → Reply V

abbrev pub refuse : {V : Type 0} → ℕ → String → Response V
refuse code message = record { status = code; body = error_body message }

-- `secret or None`
abbrev pub configured : Option String → Option String
configured none = none
configured (some secret) = if str_eq secret "" then none else some secret

-- `headers.get("x-approval-secret", "")`
abbrev pub presented : Dict String → String
presented headers = elim (Dict.get headers "x-approval-secret") [ none ↦ "" | some given ↦ given ]

unfoldable pub authorize : {V : Type 0} → Option String → Dict String → Option (Response V)
authorize none headers = some (refuse 503 "approval endpoints disabled: APPROVAL_SECRET is not set")
authorize (some secret) headers =
    if not (str_eq (presented headers) secret)
    then some (refuse 401 "missing or invalid X-Approval-Secret")
    else none

abbrev pub decision_of : Option Field → Option Decision
decision_of none = none
decision_of (some other_value) = none
decision_of (some (text_value d)) =
    if str_eq d "approve" then some approve else if str_eq d "deny" then some deny else none

abbrev pub decision_name : Decision → String
decision_name approve = "approve"
decision_name deny = "deny"

abbrev pub path_prefix : String
path_prefix = "/approve/"

abbrev pub decider_of : {V : Type 0} → Host V → Option Field → Option String
decider_of host none = none
decider_of host (some other_value) = none
decider_of host (some (text_value who)) = if is_blank host who then none else some who

-- A request that `_authorize` refused is answered so; any other is handled.
abbrev pub guarded :
    {V W : Type 0}
    → Executor V W
    → Option (Response V)
    → Executor V W × Reply V
    → Executor V W × Reply V
guarded x (some response) handled = (x, reply response)
guarded x none handled = handled

module _ {V W : Type 0} (host : Host V) where
  -- `PendingCallError` is a 404 and `AlreadyDecidedError` a 409; any other exception leaves the
  -- handler.
  abbrev pub answer :
      String → Decision → String → Executor V W × Result Error ToolResult → Executor V W × Reply V
  answer i d who (y, ok result) = (
    y,
    reply (record {
      status = 200;
      body = decided_body i (decision_name d) who result.status result.output;
    }),
  )
  answer i d who (y, err (pending_call message)) = (y, reply (refuse 404 message))
  answer i d who (y, err (already_decided message)) = (y, reply (refuse 409 message))
  answer i d who (y, err e) = (y, raised e)

  unfoldable pub approve_fields :
      Executor V W → String → Option Decision → Option String → Executor V W × Reply V
  approve_fields x i none who =
      (x, reply (refuse 400 "field 'decision' must be 'approve' or 'deny'"))
  approve_fields x i (some d) none =
      (x, reply (refuse 400 "field 'decided_by' must be a non-empty string"))
  approve_fields x i (some d) (some who) = answer i d who (resolve host x i d who)

  unfoldable pub approve_payload : Executor V W → String → Option Payload → Executor V W × Reply V
  approve_payload x i (some (object fields)) =
      approve_fields x i (decision_of (Dict.get fields "decision"))
        (decider_of host (Dict.get fields "decided_by"))
  approve_payload x i _ = (x, reply (refuse 400 "body must be a JSON object"))

  -- `__call__`; `loads` is `json.loads`, `none` where it raises `ValueError`.
  unfoldable pub route :
      (String → Option Payload)
      → Option String
      → Executor V W
      → String
      → String
      → Dict String
      → Option String
      → Executor V W × Reply V
  route loads secret x method path headers body =
      let denied = authorize (configured secret) headers in
      if str_eq path "/pending" && str_eq method "GET"
      then guarded x denied (x, reply (record { status = 200; body = pending_body (pending x) }))
      else if starts_with path path_prefix && str_eq method "POST"
      then guarded x denied (
          approve_payload x (slice path (len path_prefix) (len path))
            (loads (elim body [ none ↦ "" | some b ↦ b ])))
      else (x, not_ours)
