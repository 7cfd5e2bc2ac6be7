-- ===== src/Core/Loop.antt =====
-- `_tool_round` and the loop of `handle` over the rounds.
use agent_keep.Base.{
  ℕ, zero, suc, String, Bool, true, false, Option, none, some, List, [], ◌∷◌, ◌++◌, map, Result, ok,
  err, concat, join, is_empty,
}
use agent_keep.Audit.{Trigger}
use agent_keep.Executor.Types.{Host, ToolCallRequest, ToolResult, Executor, Error as ExecutorError}
use agent_keep.Executor.Calls.{execute}
use agent_keep.Router.Budget.{Floats}
use agent_keep.Core.Model.{
  assistant, tool, PromptMessage, AssembledPrompt, ProviderReply, Providers, Error, runtime_error,
  AgentCore, max_tool_rounds, status_name, call_model,
}

module _ {V W F : Type 0} (host : Host V) (floats : Floats F) (out : Providers V W) where
  -- The executor answers a call of this turn on the shared sink and world.
  abbrev pub lent : AgentCore V W F → Executor V W → Executor V W
  lent core x = record x { sink = core.audit_sink; world = core.world }

  abbrev pub tool_text : ToolResult → PromptMessage
  tool_text result = record {
    role = tool;
    text =
        concat ("[" ∷ result.name ∷ " -> " ∷ status_name result.status ∷ "] " ∷ result.output ∷ []);
  }

  abbrev pub told : Result ExecutorError ToolResult → List PromptMessage
  told (ok result) = tool_text result ∷ []
  told (err e) = []

  -- The calls of one round, in their order; `execute` does not raise where there is a trigger.
  unfoldable pub run_round :
      AgentCore V W F
      → Executor V W
      → List (ToolCallRequest V)
      → Trigger
      → AgentCore V W F × List PromptMessage
  run_round core x [] trigger = (record core { executor = some x }, [])
  run_round core x (call ∷ calls) trigger =
      let (y, result) =
        execute host (out.fresh_id core.world) (out.clock core.world) (lent core x) call
          (some trigger) in
      let (after, turns) =
        run_round (record core { audit_sink = y.sink; world = y.world }) y calls trigger in
      (after, told result ++ turns)

  abbrev pub requested : List (ToolCallRequest V) → String
  requested calls =
      join "; "
        (map (λ c. concat (c.name ∷ "(" ∷ out.dumps_arguments c.arguments ∷ ")" ∷ [])) calls)

  unfoldable pub tool_round :
      AgentCore V W F
      → Executor V W
      → AssembledPrompt V
      → ProviderReply V
      → Trigger
      → AgentCore V W F × AssembledPrompt V
  tool_round core x prompt reply trigger =
      let (after, turns) = run_round core x reply.tool_calls trigger in
      (
        after,
        record prompt {
          messages =
              prompt.messages
              ++ record {
                role = assistant;
                text = concat ("[tool calls requested: " ∷ requested reply.tool_calls ∷ "]" ∷ []);
              }
                ∷ turns;
        },
      )

  -- The loop's condition: stop with the reply, or go on with the executor.
  abbrev pub advance : {A : Type 0} → Option (Executor V W) → Bool → A → (Executor V W → A) → A
  advance none no_calls stop go = stop
  advance (some x) true stop go = stop
  advance (some x) false stop go = go x

  -- The loop of `handle` from the outcome of a model call: `left` more rounds may be run.
  unfoldable pub turn_loop :
      ℕ
      → AssembledPrompt V
      → Trigger
      → Option String
      → String
      → AgentCore V W F × Result Error (ProviderReply V)
      → AgentCore V W F × Result Error (ProviderReply V)
  turn_loop left prompt trigger session id (core, err e) = (core, err e)
  turn_loop zero prompt trigger session id (core, ok reply) =
      advance core.executor (is_empty reply.tool_calls) (core, ok reply)
        (λ x. (
          core,
          err (
              runtime_error (
                concat (
                  "tool loop exceeded "
                  ∷ out.show_int max_tool_rounds
                  ∷ " rounds for message "
                  ∷ id
                  ∷ []))),
        ))
  turn_loop (suc left) prompt trigger session id (core, ok reply) =
      advance core.executor (is_empty reply.tool_calls) (core, ok reply)
        (λ x.
          let (after, next) = tool_round core x prompt reply trigger in
          turn_loop left next trigger session id
            (call_model host floats out after next (some trigger) session))

  -- From the assembled prompt, with the visible tools, to the reply that ends the turn.
  unfoldable pub run_turn :
      AgentCore V W F
      → AssembledPrompt V
      → Trigger
      → Option String
      → String
      → AgentCore V W F × Result Error (ProviderReply V)
  run_turn core prompt trigger session id =
      turn_loop max_tool_rounds prompt trigger session id
        (call_model host floats out core prompt (some trigger) session)
