-- ===== src/Static.antt =====
-- The provider that reads from a script: agent_runtime/components/static_provider.py.
pub mod Turns
mod Tests
use text.Mathlib.Text.{starts_with}
use Prim.Native.String.{slice, len}
use agent_keep.Base.{
  ℕ, zero, suc, ◌+◌, ◌%◌, String, Bool, true, false, Option, none, some, List, [], ◌∷◌, Result, ok,
  err, concat, length, if◌then◌else◌,
}
use agent_keep.Base.Dict
use agent_keep.Base.Dict.{Dict}
use agent_keep.Executor.Types.{ToolCallRequest}
use agent_keep.Core.Model.{PromptMessage, AssembledPrompt, ProviderReply}

-- What the provider takes from Python: json.loads and the tests on its values, `len(text.split())`,
-- and a number's text.
pub record Python (J : Type 0) : Type 0 where
  pub loads : String → Option J
  pub as_list : J → Option (List J)
  pub as_dict : J → Option (Dict J)
  pub as_text : J → Option String
  pub count_words : String → ℕ
  pub show : ℕ → String

pub data ScriptError : Type 0 where
  decode_error index_error : ScriptError
  value_error : String → ScriptError

abbrev pub tool_call_prefix : String
tool_call_prefix = "TOOL_CALL "

pub record StaticProvider : Type 0 where
  pub script : List String
  pub calls : ℕ

-- `StaticProvider(script)`
unfoldable pub make_provider : List String → Result ScriptError StaticProvider
make_provider [] = err (value_error "static provider requires a non-empty script")
make_provider (entry ∷ script) = ok (record { script = entry ∷ script; calls = 0 })

-- `script[i]`, for an index that is not negative
unfoldable pub entry_at : List String → ℕ → Option String
entry_at [] i = none
entry_at (entry ∷ script) zero = some entry
entry_at (entry ∷ script) (suc i) = entry_at script i

module _ {J : Type 0} (python : Python J) where
  -- `item["name"]`, where it is a text
  abbrev pub name_of : Option (Dict J) → Option String
  name_of none = none
  name_of (some item) = elim (Dict.get item "name") [ none ↦ none | some v ↦ python.as_text v ]

  -- `item.get("arguments", {})`, where it is an object
  abbrev pub arguments_of : Option (Dict J) → Option (Dict J)
  arguments_of none = none
  arguments_of (some item) = elim (Dict.get item "arguments") [
    | none ↦ some []
    | some v ↦ python.as_dict v
  ]

  abbrev pub bad_entry : ℕ → String → ScriptError
  bad_entry turn reason =
      value_error
        (concat ("static script TOOL_CALL entry " ∷ python.show turn ∷ ": " ∷ reason ∷ []))

  abbrev pub parse_call :
      ℕ → ℕ → Option String → Option (Dict J) → Result ScriptError (ToolCallRequest J)
  parse_call turn index none arguments = err (bad_entry turn "each call needs a string 'name'")
  parse_call turn index (some name) none = err (bad_entry turn "'arguments' must be an object")
  parse_call turn index (some name) (some arguments) = ok (record {
    id = concat ("call-" ∷ python.show turn ∷ "-" ∷ python.show index ∷ []);
    name = name;
    arguments = arguments;
  })

  -- The loop over the items, from an index on.
  unfoldable pub parse_calls : ℕ → ℕ → List J → Result ScriptError (List (ToolCallRequest J))
  parse_calls turn index [] = ok []
  parse_calls turn index (item ∷ items) =
      let rest = parse_calls turn (suc index) items in
      let fields = python.as_dict item in
      elim (parse_call turn index (name_of fields) (arguments_of fields)) [
        | err e ↦ err e
        | ok call ↦ elim rest [ err e ↦ err e | ok calls ↦ ok (call ∷ calls) ]
      ]

  -- `_parse_tool_calls`
  unfoldable pub parse_tool_calls : String → ℕ → Result ScriptError (List (ToolCallRequest J))
  parse_tool_calls entry turn =
      elim (python.loads (slice entry (len tool_call_prefix) (len entry))) [
        | none ↦ err decode_error
        | some payload ↦ elim (python.as_list payload) [
          | none ↦ parse_calls turn 0 (payload ∷ [])
          | some items ↦ parse_calls turn 0 items
        ]
      ]

  unfoldable pub words_of : List PromptMessage → ℕ
  words_of [] = 0
  words_of (m ∷ messages) = python.count_words m.text + words_of messages

  abbrev pub prompt_tokens : AssembledPrompt J → ℕ
  prompt_tokens prompt = python.count_words prompt.system + words_of prompt.messages

  -- What `complete` returns for an entry in a turn.
  unfoldable pub reply_to :
      ℕ → AssembledPrompt J → Option String → Result ScriptError (ProviderReply J)
  reply_to turn prompt none = err index_error
  reply_to turn prompt (some entry) =
      if starts_with entry tool_call_prefix
      then elim (parse_tool_calls entry turn) [
        | err e ↦ err e
        | ok calls ↦ ok (record {
          text = "";
          tokens_in = prompt_tokens prompt;
          tokens_out = python.count_words entry;
          tool_calls = calls;
        })
      ]
      else ok (record {
        text = entry;
        tokens_in = prompt_tokens prompt;
        tokens_out = python.count_words entry;
        tool_calls = [];
      })

  -- `complete`: the call is counted, also where its entry is no list of tool calls.
  unfoldable pub complete :
      StaticProvider → AssembledPrompt J → StaticProvider × Result ScriptError (ProviderReply J)
  complete p prompt = (
    record p { calls = suc p.calls },
    reply_to p.calls prompt (entry_at p.script (p.calls % length p.script)),
  )
