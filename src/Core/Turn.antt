-- ===== src/Core/Turn.antt =====
-- What `call_model` of core.py leaves in the audit log.
use mathlib.Core.List.{append_assoc}
use agent_keep.Base.{
  ℕ, ◌+◌, String, true, ◌≡◌, refl, ap, ◌∙◌, Option, none, some, [], ◌∷◌, ◌++◌, Result, ok, err,
  arith, All, err-injective,
}
use agent_keep.Audit.{Trigger, Action, Status, Cost, AuditLog, AuditRecord, Event, event_blocks}
use agent_keep.Executor.Types.{Host}
use agent_keep.Router.Budget.{Floats, ModelRouter, VerdictAction, proceed, warned, refuse}
use agent_keep.Core.Model.{
  AssembledPrompt, ProviderReply, Providers, Error, budget_exceeded, provider_error, AgentCore,
  action_of, write, charge, answered, complete_call, on_verdict, checked, call_model,
}

-- The record of a call that came to this result.
abbrev pub Matches : {V : Type 0} → Result Error (ProviderReply V) → AuditRecord → Type 0
Matches (ok reply) r =
    (r.outcome.status ≡ Status.ok)
    × (r.cost ≡ some (record { tokens_in = reply.tokens_in; tokens_out = reply.tokens_out }))
Matches (err (budget_exceeded note)) r = r.outcome.status ≡ Status.denied
Matches (err (provider_error e)) r = r.outcome.status ≡ Status.error
Matches (err e) r = ⊥

-- A valid record of this turn.
abbrev pub OfTurn : Trigger → AuditRecord → Type 0
OfTurn trigger r = (r.trigger ≡ trigger) × (event_blocks r ≡ true)

abbrev pub is_model_call : Event → ℕ
is_model_call Event.model_call = 1
is_model_call _ = 0

-- How many model calls a log holds.
unfoldable pub model_calls : AuditLog → ℕ
model_calls [] = 0
model_calls (r ∷ rs) = is_model_call r.event + model_calls rs

pub model_calls-append :
    (xs ys : AuditLog) → model_calls (xs ++ ys) ≡ model_calls xs + model_calls ys
unfolding model_calls
model_calls-append [] ys = omega arith
model_calls-append (r ∷ rs) ys = omega (arith, model_calls-append rs ys)

module _ {V W F : Type 0} (host : Host V) (floats : Floats F) (out : Providers V W) where
  -- One call: perhaps a warning, then one `model_call` record that matches the result. A call refused
  -- by the budget reached no provider.
  pub record Called (core : AgentCore V W F) (trigger : Trigger)
      (p : AgentCore V W F × Result Error (ProviderReply V)) : Type 0 where
    pub warnings : AuditLog
    pub last : AuditRecord
    pub sink : p.0.audit_sink ≡ core.audit_sink ++ (warnings ++ last ∷ [])
    pub warn_only : All (λ r. (r.event ≡ Event.budget_warning) × OfTurn trigger r) warnings
    pub last_event : last.event ≡ Event.model_call
    pub of_turn : OfTurn trigger last
    pub matched : Matches p.1 last
    pub refused : (note : String) → p.1 ≡ err (budget_exceeded note) → p.0.world ≡ core.world

  charge-keeps :
      (core : AgentCore V W F) (provider : ℕ) (reply : ProviderReply V)
      (router : Option (ModelRouter F)) (session : Option String)
      → (charge host floats out core provider reply router session).audit_sink ≡ core.audit_sink
  charge-keeps core provider reply none session = refl
  charge-keeps core provider reply (some r) none = refl
  charge-keeps core provider reply (some r) (some s) = refl

  answered-Called :
      (core : AgentCore V W F) (provider : ℕ) (trigger : Trigger) (action : Action)
      (session : Option String) (o : Result String (ProviderReply V) × W)
      → Called core trigger (answered host floats out core provider trigger action session o)
  unfolding event_blocks
  answered-Called core provider trigger action session (err e, w) = record {
    warnings = [];
    last = _;
    sink = refl;
    warn_only = tt;
    last_event = refl;
    of_turn = (refl, refl);
    matched = refl;
    refused = λ note h. absurd (cc (err-injective h));
  }
  answered-Called core provider trigger action session (ok reply, w) = record {
    warnings = [];
    last = _;
    sink = charge-keeps _ provider reply _ session;
    warn_only = tt;
    last_event = refl;
    of_turn = (refl, refl);
    matched = (refl, refl);
    refused = λ note h. absurd (cc h);
  }

  -- A budget warning in front of the call.
  after_warning :
      (core : AgentCore V W F) (trigger : Trigger) (action : Action) (status : Status)
      (digest : Option String) (cost : Option Cost)
      (p : AgentCore V W F × Result Error (ProviderReply V))
      → Called
          (write host floats out core Event.budget_warning trigger action status digest cost)
          trigger
          p
      → Called core trigger p
  unfolding event_blocks
  after_warning core trigger action status digest cost p c = record {
    warnings = _ ∷ c.warnings;
    last = c.last;
    sink = c.sink ∙ append_assoc core.audit_sink _ _;
    warn_only = ((refl, (refl, refl)), c.warn_only);
    last_event = c.last_event;
    of_turn = c.of_turn;
    matched = c.matched;
    refused = c.refused;
  }

  on_verdict-Called :
      (core : AgentCore V W F) (prompt : AssembledPrompt V) (provider : ℕ) (trigger : Trigger)
      (session : Option String) (action : VerdictAction) (note : String)
      → Called core trigger
          (on_verdict host floats out core prompt provider trigger session action note)
  unfolding on_verdict complete_call event_blocks
  on_verdict-Called core prompt provider trigger session proceed note =
      answered-Called core provider trigger (action_of host floats out provider prompt) session
        (out.complete provider prompt core.world)
  on_verdict-Called core prompt provider trigger session warned note =
      after_warning core trigger _ _ _ _ _ (
        answered-Called _ provider trigger (action_of host floats out provider prompt) session
          (out.complete provider prompt core.world))
  on_verdict-Called core prompt provider trigger session refuse note = record {
    warnings = [];
    last = _;
    sink = refl;
    warn_only = tt;
    last_event = refl;
    of_turn = (refl, refl);
    matched = refl;
    refused = λ n h. refl;
  }

  -- Asking for the verdict touches neither the log nor the world.
  checked-keeps :
      (core : AgentCore V W F) (router : Option (ModelRouter F)) (session : Option String)
      → let q = (checked host floats out core router session).0 in
        (q.audit_sink ≡ core.audit_sink) × (q.world ≡ core.world) × (q.executor ≡ core.executor)
  checked-keeps core none session = (refl, refl, refl)
  checked-keeps core (some r) none = (refl, refl, refl)
  checked-keeps core (some r) (some s) = (refl, refl, refl)

  -- Every model call that has a trigger leaves at most warnings and then exactly one `model_call`
  -- record, all with that trigger and valid: `ok` with the very cost of the reply, `error` where the
  -- provider raised, `denied` where the budget refused, and then no provider was asked. Without a
  -- trigger the call is refused and nothing changes.
  pub call_model-Called :
      (core : AgentCore V W F) (prompt : AssembledPrompt V) (trigger : Trigger)
      (session : Option String)
      → Called core trigger (call_model host floats out core prompt (some trigger) session)
        × ((call_model host floats out core prompt none session).0 ≡ core)
  unfolding call_model
  call_model-Called core prompt trigger session =
      let keeps = checked-keeps core core.router session in
      let (q, action, note) = checked host floats out core core.router session in
      let c = on_verdict-Called q prompt _ trigger session action note in
      (
        record {
          warnings = c.warnings;
          last = c.last;
          sink = c.sink ∙ ap (λ s. s ++ (c.warnings ++ c.last ∷ [])) keeps.0;
          warn_only = c.warn_only;
          last_event = c.last_event;
          of_turn = c.of_turn;
          matched = c.matched;
          refused = λ n h. c.refused n h ∙ keeps.1;
        },
        refl,
      )
