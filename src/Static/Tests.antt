-- ===== src/Static/Tests.antt =====
-- A script of two lines, and a provider that has read five entries of it.
use agent_keep.Base.{ℕ, ◌+◌, ◌<◌, ◌≡◌, refl, none, some, List, [], ◌∷◌, err, length}
use agent_keep.Core.Model.{AssembledPrompt}
use agent_keep.Static.{
  Python, StaticProvider, ScriptError, make_provider, entry_at, parse_tool_calls, parse_calls,
  reply_to, complete,
}
use agent_keep.Static.Turns.{after, complete-Reaches}

-- Values that are numbers, of which none is an object.
abbrev python : Python ℕ
python = record {
  loads = λ text. some 4;
  as_list = λ v. none;
  as_dict = λ v. none;
  as_text = λ v. none;
  count_words = λ text. 1;
  show = λ n. "2";
}

abbrev lines : StaticProvider
lines = record { script = "hello" ∷ "good bye" ∷ []; calls = 5 }

abbrev prompt : AssembledPrompt ℕ
prompt = record { system = "be brief"; messages = []; tools = [] }

-- The theorem for the first line, which is not the next one.
complete-Reaches_example :
    (k : ℕ) × ((k < 2)
      × ((prompts : List (AssembledPrompt ℕ)) (q : AssembledPrompt ℕ)
          → length prompts ≡ k
          → (complete python (after python lines prompts) q).1
            ≡ reply_to python (5 + k) q (some "hello")))
unfolding entry_at
complete-Reaches_example = complete-Reaches python lines 0 "hello" refl

no_script :
    make_provider [] ≡ err (ScriptError.value_error "static provider requires a non-empty script")
unfolding make_provider
no_script = refl

nameless :
    (complete python (record { script = "TOOL_CALL 4" ∷ []; calls = 2 }) prompt).1
    ≡ err
        (ScriptError.value_error "static script TOOL_CALL entry 2: each call needs a string 'name'")
unfolding complete reply_to entry_at parse_tool_calls parse_calls
nameless = refl
