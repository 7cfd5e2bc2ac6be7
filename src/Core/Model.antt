-- ===== src/Core/Model.antt =====
-- The core's data, and `call_model`.
use agent_keep.Base.{
  ℕ, String, Option, none, some, List, [], ◌∷◌, Result, ok, err, concat, is_empty, length,
  if◌then◌else◌,
}
use agent_keep.Base.Dict.{Dict}
use agent_keep.Audit.{AgentIdentity, Trigger, Action, Status, Cost, AuditLog, Event, append}
use agent_keep.Executor.Types.{Host, ToolCallRequest, ToolDescriptor, Executor}
use agent_keep.Router.Budget.{
  Floats, ModelRouter, VerdictAction, proceed, warned, refuse, provider_for, budget_verdict,
  record_cost,
}

pub data PromptRole : Type 0 where
  user assistant tool : PromptRole

pub record PromptMessage : Type 0 where
  pub role : PromptRole
  pub text : String

pub record AssembledPrompt (V : Type 0) : Type 0 where
  pub system : String
  pub messages : List PromptMessage
  pub tools : List (ToolDescriptor V)

pub record ProviderReply (V : Type 0) : Type 0 where
  pub text : String
  pub tokens_in : ℕ
  pub tokens_out : ℕ
  pub tool_calls : List (ToolCallRequest V)

-- What is hashed for a prompt and for a reply: the tools, and the calls, only where there are any.
pub data Payload (V : Type 0) : Type 0 where
  prompt_payload : String → List PromptMessage → Option (List (ToolDescriptor V)) → Payload V
  reply_payload : String → List (ToolCallRequest V) → Payload V

-- What the core takes from outside: the providers, by object, with their name and their answer or the
-- exception that they raise; canonical JSON; `str` of a number; the ids and times of parked calls.
pub record Providers (V W : Type 0) : Type 0 where
  pub name : ℕ → String
  pub complete : ℕ → AssembledPrompt V → W → Result String (ProviderReply V) × W
  pub dumps_payload : Payload V → String
  pub dumps_arguments : Dict V → String
  pub show_int : ℕ → String
  pub fresh_id : W → String
  pub clock : W → String

pub data Error : Type 0 where
  trigger_refused budget_exceeded provider_error runtime_error : String → Error

pub record AgentCore (V W F : Type 0) : Type 0 where
  pub identity : AgentIdentity
  pub provider : ℕ
  pub audit_sink : AuditLog
  pub world : W
  pub executor : Option (Executor V W)
  pub router : Option (ModelRouter F)

abbrev pub max_tool_rounds : ℕ
max_tool_rounds = 8

abbrev pub status_name : Status → String
status_name Status.ok = "ok"
status_name Status.error = "error"
status_name Status.denied = "denied"
status_name Status.pending_approval = "pending_approval"

module _ {V W F : Type 0} (host : Host V) (floats : Floats F) (out : Providers V W) where
  abbrev pub sha : String → String
  sha data_text = concat ("sha256:" ∷ host.sha256 data_text ∷ [])

  unfoldable pub prompt_digest : AssembledPrompt V → String
  prompt_digest prompt = sha (
      out.dumps_payload (
        prompt_payload prompt.system prompt.messages
          (if is_empty prompt.tools then none else some prompt.tools)))

  unfoldable pub reply_digest : ProviderReply V → String
  reply_digest reply =
      if is_empty reply.tool_calls
      then sha reply.text
      else sha (out.dumps_payload (reply_payload reply.text reply.tool_calls))

  abbrev pub chosen : AgentCore V W F → Trigger → Option (ModelRouter F) → ℕ
  chosen core trigger none = core.provider
  chosen core trigger (some router) = provider_for router (some trigger)

  unfoldable pub action_of : ℕ → AssembledPrompt V → Action
  action_of provider prompt = record {
    name = out.name provider;
    input_digest = prompt_digest prompt;
    input_summary = concat (
        "assembled prompt: "
        ∷ out.show_int (length prompt.messages)
        ∷ " message(s), system context present"
        ∷ []);
  }

  -- One record of a model call, or of a budget warning.
  abbrev pub write :
      AgentCore V W F
      → Event
      → Trigger
      → Action
      → Status
      → Option String
      → Option Cost
      → AgentCore V W F
  write core event trigger action status digest cost = record core {
    audit_sink = append core.audit_sink (record {
      agent = core.identity;
      event = event;
      trigger = trigger;
      action = action;
      outcome = record { status = status; output_digest = digest };
      approval = none;
      cost = cost;
    });
  }

  abbrev pub no_cost : Option Cost
  no_cost = some (record { tokens_in = 0; tokens_out = 0 })

  -- `record_cost`, where a router is wired and the call has a session.
  abbrev pub charge :
      AgentCore V W F
      → ℕ
      → ProviderReply V
      → Option (ModelRouter F)
      → Option String
      → AgentCore V W F
  charge core provider reply (some router) (some session) = record core {
    router =
        some (record_cost floats router session reply.tokens_in reply.tokens_out (some provider));
  }
  charge core provider reply _ _ = core

  -- The call itself, from what the provider gave.
  abbrev pub answered :
      AgentCore V W F
      → ℕ
      → Trigger
      → Action
      → Option String
      → Result String (ProviderReply V) × W
      → AgentCore V W F × Result Error (ProviderReply V)
  answered core provider trigger action session (err e, w) = (
    write (record core { world = w }) Event.model_call trigger action Status.error none no_cost,
    err (provider_error e),
  )
  answered core provider trigger action session (ok reply, w) =
      let after =
        write (record core { world = w }) Event.model_call trigger action Status.ok
          (some (reply_digest reply))
          (some (record { tokens_in = reply.tokens_in; tokens_out = reply.tokens_out })) in
      (charge after provider reply after.router session, ok reply)

  unfoldable pub complete_call :
      AgentCore V W F
      → AssembledPrompt V
      → ℕ
      → Trigger
      → Option String
      → AgentCore V W F × Result Error (ProviderReply V)
  complete_call core prompt provider trigger session =
      answered core provider trigger (action_of provider prompt) session
        (out.complete provider prompt core.world)

  -- What the core does on a verdict.
  unfoldable pub on_verdict :
      AgentCore V W F
      → AssembledPrompt V
      → ℕ
      → Trigger
      → Option String
      → VerdictAction
      → String
      → AgentCore V W F × Result Error (ProviderReply V)
  on_verdict core prompt provider trigger session proceed note =
      complete_call core prompt provider trigger session
  on_verdict core prompt provider trigger session warned note =
      complete_call
        (write core Event.budget_warning trigger
          (record { name = out.name provider; input_digest = sha note; input_summary = note })
          Status.ok none none)
        prompt provider trigger session
  on_verdict core prompt provider trigger session refuse note =
      let action = action_of provider prompt in
      (
        write core Event.model_call trigger
            (record {
              name = out.name provider;
              input_digest = action.input_digest;
              input_summary = concat (action.input_summary ∷ "; " ∷ note ∷ []);
            })
            Status.denied none no_cost,
        err (budget_exceeded note),
      )

  -- The verdict is asked where a router is wired and the call has a session.
  abbrev pub checked :
      AgentCore V W F
      → Option (ModelRouter F)
      → Option String
      → AgentCore V W F × VerdictAction × String
  checked core (some router) (some session) =
      let (r, v) = budget_verdict floats router session in
      (record core { router = some r }, v.action, v.note)
  checked core _ _ = (core, proceed, "")

  unfoldable pub call_model :
      AgentCore V W F
      → AssembledPrompt V
      → Option Trigger
      → Option String
      → AgentCore V W F × Result Error (ProviderReply V)
  call_model core prompt none session = (
    core,
    err (trigger_refused "model call refused: no trigger — an unrecordable call must not execute"),
  )
  call_model core prompt (some trigger) session =
      let provider = chosen core trigger core.router in
      let (asked, action, note) = checked core core.router session in
      on_verdict asked prompt provider trigger session action note
