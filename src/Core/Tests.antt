-- ===== src/Core/Tests.antt =====
-- A core whose model asks for a tool without end, and the theorems about the core at work on it.
use agent_keep.Base.{ℕ, ◌+◌, ◌==◌, ◌≡◌, none, some, [], ◌∷◌, ok, leb, join}
use agent_keep.Audit.{AgentIdentity, Trigger}
use agent_keep.Executor.Types.{Host}
use agent_keep.Router.Budget.{Floats}
use agent_keep.Core.Model.{AssembledPrompt, ProviderReply, Providers, AgentCore, user, call_model}
use agent_keep.Core.Turn.{Called, call_model-Called}

abbrev pub host : Host ℕ
host = record {
  same = ◌==◌;
  dumps = λ d. "{}";
  sha256 = λ s. s;
  repr_list = join ", ";
  repr = λ s. s;
  strip = λ s. s;
}

abbrev pub floats : Floats ℕ
floats = record {
  zero_usd = 0;
  add = λ a b. a + b;
  scale = λ n a. a;
  per_million = λ a. a;
  at_least = λ a b. leb b a;
  show_int = λ n. "n";
  show_6f = λ a. "x";
  show = λ a. "x";
}

abbrev pub insistent : ProviderReply ℕ
insistent = record {
  text = "more";
  tokens_in = 3;
  tokens_out = 1;
  tool_calls = record { id = "c1"; name = "mail.send"; arguments = [] } ∷ [];
}

abbrev pub providers : Providers ℕ ℕ
providers = record {
  name = λ p. "model";
  complete = λ p prompt w. (ok insistent, w + 1);
  dumps_payload = λ p. "{}";
  dumps_arguments = λ d. "{}";
  show_int = λ n. "n";
  fresh_id = λ w. "p1";
  clock = λ w. "now";
}

abbrev pub identity : AgentIdentity
identity = record { slug = "scribe"; spec_version = "1"; image_digest = "sha256:0" }

abbrev trigger : Trigger
trigger = record { message_id = some "m1"; trigger_id = none; purpose = "reply" }

abbrev pub core : AgentCore ℕ ℕ ℕ
core = record {
  identity = identity;
  provider = 0;
  audit_sink = [];
  world = 0;
  executor = some (record {
    identity = identity;
    sink = [];
    closers = [];
    tools = [];
    auto_approve = [];
    pending = [];
    world = 0;
  });
  router = none;
}

abbrev prompt : AssembledPrompt ℕ
prompt = record {
  system = "be brief";
  messages = record { role = user; text = "hi" } ∷ [];
  tools = [];
}

call_model-Called_example :
    Called host floats providers core trigger
      (call_model host floats providers core prompt (some trigger) (some "s"))
    × ((call_model host floats providers core prompt none (some "s")).0 ≡ core)
call_model-Called_example = call_model-Called host floats providers core prompt trigger (some "s")
