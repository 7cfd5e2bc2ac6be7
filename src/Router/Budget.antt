-- ===== src/Router/Budget.antt =====
-- `ModelPrice` and `ModelRouter`. A provider stands for the object: its number is the object's
-- identity. USD amounts are a type `F` with the operations that the code applies to floats.
use agent_keep.Base.{
  ℕ, ◌+◌, String, Bool, false, Option, none, some, List, [], ◌∷◌, concat, contains, leb, ◌==◌,
  if◌then◌else◌,
}
use agent_keep.Base.Dict
use agent_keep.Base.Dict.{Dict}
use agent_keep.Audit.{Trigger}

-- Floats and how an f-string shows numbers: `{n}`, `{x:.6f}` and `{x}`.
pub record Floats (F : Type 0) : Type 0 where
  pub zero_usd : F
  pub add : F → F → F
  pub scale : ℕ → F → F
  pub per_million : F → F
  pub at_least : F → F → Bool
  pub show_int : ℕ → String
  pub show_6f : F → String
  pub show : F → String

pub data OnExceed : Type 0 where
  block warn : OnExceed

pub data VerdictAction : Type 0 where
  proceed warned refuse : VerdictAction

-- `action` and `note`; `proceed` is the source's `ok`, `warned` its `warn`.
pub record BudgetVerdict : Type 0 where
  pub action : VerdictAction
  pub note : String

pub record ModelPrice (F : Type 0) : Type 0 where
  pub usd_per_million_input : F
  pub usd_per_million_output : F

pub record ModelRouter (F : Type 0) : Type 0 where
  pub default : ℕ
  pub tiers : Dict ℕ
  pub cap : Option ℕ
  pub usd_cap : Option F
  pub on_exceed : OnExceed
  pub spent : Dict ℕ
  pub usd_spent : Dict F
  pub warned_sessions : List String
  pub price_by_provider : List (ℕ × ModelPrice F)

abbrev pub or_else : {A : Type 0} → Option A → A → A
or_else none a = a
or_else (some b) a = b

module _ {F : Type 0} where
  -- `self._price_by_provider.get(id(provider))`
  unfoldable pub price_of : List (ℕ × ModelPrice F) → ℕ → Option (ModelPrice F)
  price_of [] provider = none
  price_of ((p, price) ∷ prices) provider =
      let rest = price_of prices provider in if p == provider then some price else rest

  abbrev pub price_for : ModelRouter F → Option ℕ → Option (ModelPrice F)
  price_for r none = none
  price_for r (some provider) = price_of r.price_by_provider provider

  -- The loop of the constructor over the tiers: a later price of the same object replaces an
  -- earlier one, so it goes to the front.
  unfoldable pub price_tiers :
      Dict (Option (ModelPrice F)) → List (ℕ × ModelPrice F) → Dict ℕ → List (ℕ × ModelPrice F)
  price_tiers prices known [] = known
  price_tiers prices known ((name, provider) ∷ tiers) = elim (Dict.get prices name) [
    | some (some price) ↦ price_tiers prices ((provider, price) ∷ known) tiers
    | _ ↦ price_tiers prices known tiers
  ]

  abbrev pub default_prices : ℕ → Option (ModelPrice F) → List (ℕ × ModelPrice F)
  default_prices default none = []
  default_prices default (some price) = (default, price) ∷ []

  -- `ModelRouter.__init__`
  unfoldable pub make_router :
      ℕ
      → Dict ℕ
      → Option ℕ
      → Option F
      → OnExceed
      → Option (ModelPrice F)
      → Dict (Option (ModelPrice F))
      → ModelRouter F
  make_router default tiers cap usd_cap on_exceed default_price tier_prices = record {
    default = default;
    tiers = tiers;
    cap = cap;
    usd_cap = usd_cap;
    on_exceed = on_exceed;
    spent = [];
    usd_spent = [];
    warned_sessions = [];
    price_by_provider = price_tiers tier_prices (default_prices default default_price) tiers;
  }

  abbrev tier_or_default : ModelRouter F → Option String → ℕ
  tier_or_default r none = r.default
  tier_or_default r (some message) = or_else (Dict.get r.tiers "message") r.default

  unfoldable pub provider_for : ModelRouter F → Option Trigger → ℕ
  provider_for r none = r.default
  provider_for r (some trigger) = tier_or_default r trigger.message_id

  -- `self._spent.get(session_id, 0)`
  unfoldable pub spent_by : ModelRouter F → String → ℕ
  spent_by r session = or_else (Dict.get r.spent session) 0

module _ {F : Type 0} (floats : Floats F) where
  unfoldable pub price_cost : ModelPrice F → ℕ → ℕ → F
  price_cost price tokens_in tokens_out = floats.per_million (
      floats.add (floats.scale tokens_in price.usd_per_million_input)
        (floats.scale tokens_out price.usd_per_million_output))

  unfoldable pub usd_spent_by : ModelRouter F → String → F
  usd_spent_by r session = or_else (Dict.get r.usd_spent session) floats.zero_usd

  abbrev pub over_tokens : Option ℕ → ℕ → Bool
  over_tokens none n = false
  over_tokens (some cap) n = leb cap n

  abbrev pub over_usd : Option F → F → Bool
  over_usd none x = false
  over_usd (some cap) x = floats.at_least x cap

  abbrev shown_cap : Option ℕ → String
  shown_cap none = "None"
  shown_cap (some cap) = floats.show_int cap

  abbrev shown_usd_cap : Option F → String
  shown_usd_cap none = "None"
  shown_usd_cap (some cap) = floats.show cap

  unfoldable pub exceeded_note : ModelRouter F → String → Option String
  exceeded_note r session =
      if over_tokens r.cap (spent_by r session)
      then some (
          concat (
            "session '"
            ∷ session
            ∷ "' spent "
            ∷ floats.show_int (spent_by r session)
            ∷ " model tokens; budget maxTokensPerSession="
            ∷ shown_cap r.cap
            ∷ []))
      else if over_usd r.usd_cap (usd_spent_by r session)
      then some (
          concat (
            "session '"
            ∷ session
            ∷ "' spent $"
            ∷ floats.show_6f (usd_spent_by r session)
            ∷ " in model usage; budget maxUsdPerSession="
            ∷ shown_usd_cap r.usd_cap
            ∷ []))
      else none

  -- The verdict, given the note of an exceeded budget.
  abbrev pub verdict_for :
      ModelRouter F → String → Option String → OnExceed → ModelRouter F × BudgetVerdict
  verdict_for r session none policy = (r, record { action = proceed; note = "" })
  verdict_for r session (some note) warn =
      if contains r.warned_sessions session then (r, record { action = proceed; note = "" }) else (
        record r { warned_sessions = session ∷ r.warned_sessions },
        record { action = warned; note = concat (note ∷ " — onExceed=warn, call allowed" ∷ []) },
      )
  verdict_for r session (some note) block = (
    r,
    record { action = refuse; note = concat (note ∷ " — onExceed=block, model call refused" ∷ []) },
  )

  unfoldable pub budget_verdict : ModelRouter F → String → ModelRouter F × BudgetVerdict
  budget_verdict r session = verdict_for r session (exceeded_note r session) r.on_exceed

  -- The USD part of `record_cost`.
  abbrev pub charge_usd :
      ModelRouter F → String → ℕ → ℕ → Option F → Option (ModelPrice F) → ModelRouter F
  charge_usd r session tokens_in tokens_out none price = r
  charge_usd r session tokens_in tokens_out (some cap) none = r
  charge_usd r session tokens_in tokens_out (some cap) (some price) = record r {
    usd_spent =
        Dict.put r.usd_spent session
          (floats.add (usd_spent_by r session) (price_cost price tokens_in tokens_out));
  }

  unfoldable pub record_cost : ModelRouter F → String → ℕ → ℕ → Option ℕ → ModelRouter F
  record_cost r session tokens_in tokens_out provider =
      charge_usd
        (record r {
          spent = Dict.put r.spent session (spent_by r session + tokens_in + tokens_out);
        })
        session tokens_in tokens_out r.usd_cap (price_for r provider)
