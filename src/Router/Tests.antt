-- ===== src/Router/Tests.antt =====
-- A router with a token budget, and the theorem about budgets at work on it.
use agent_keep.Base.{ℕ, ◌+◌, ◌*◌, ◌<◌, none, some, List, [], ◌∷◌, refl, arith, leb}
use agent_keep.Router.Budget.{Floats, ModelRouter, block, make_router, spent_by}
use agent_keep.Router.Spending.{Call, run_calls, run_calls-overshoot}

-- Amounts in whole millionths.
abbrev floats : Floats ℕ
floats = record {
  zero_usd = 0;
  add = λ a b. a + b;
  scale = λ n a. n * a;
  per_million = λ a. a;
  at_least = λ a b. leb b a;
  show_int = λ n. "n";
  show_6f = λ a. "x";
  show = λ a. "x";
}

abbrev router : ModelRouter ℕ
router = make_router 0 (("message", 1) ∷ []) (some 10) none block none []

abbrev calls : List Call
calls =
    record { session = "s"; tokens_in = 6; tokens_out = 3; provider = some 1 }
    ∷ record { session = "s"; tokens_in = 6; tokens_out = 3; provider = some 1 }
    ∷ record { session = "s"; tokens_in = 6; tokens_out = 3; provider = some 1 }
    ∷ []

overshoot_example : spent_by (run_calls floats router calls) "s" < 10 + 9
unfolding make_router
overshoot_example =
    run_calls-overshoot floats 10 9 router calls refl refl refl (omega arith)
      (omega arith, (omega arith, (omega arith, tt))) "s"
