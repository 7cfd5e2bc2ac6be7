-- ===== src/Router/Spending.antt =====
-- What a session may spend under the budgets of model_router.py.
use agent_keep.Base.{
  ℕ, ◌+◌, ◌≤◌, ◌<◌, String, false, ◌≡◌, inl, inr, refl, ◌∙◌, Option, none, some, List, [], ◌∷◌,
  arith, str_eq, if◌then◌else◌, Bool-cases, Option-cases, All,
}
use agent_keep.Base.Dict
use agent_keep.Base.Dict.{Dict}
use agent_keep.Router.Budget.{
  Floats, block, refuse, BudgetVerdict, ModelPrice, ModelRouter, price_for, charge_usd, spent_by,
  over_tokens, exceeded_note, verdict_for, budget_verdict, record_cost,
}

-- One call of the core: the verdict, then the charge unless the call was refused.
pub record Call : Type 0 where
  pub session : String
  pub tokens_in : ℕ
  pub tokens_out : ℕ
  pub provider : Option ℕ

module _ {F : Type 0} (floats : Floats F) where
  charge_usd-keeps :
      (r : ModelRouter F) (session : String) (i o : ℕ) (cap : Option F)
      (price : Option (ModelPrice F))
      → let q = charge_usd floats r session i o cap price in
        (q.spent ≡ r.spent)
        × (q.cap ≡ r.cap)
        × (q.on_exceed ≡ r.on_exceed)
        × (q.warned_sessions ≡ r.warned_sessions)
  charge_usd-keeps r session i o none price = (refl, refl, refl, refl)
  charge_usd-keeps r session i o (some limit) none = (refl, refl, refl, refl)
  charge_usd-keeps r session i o (some limit) (some price) = (refl, refl, refl, refl)

  charged :
      (r : ModelRouter F) (session : String) (i o : ℕ) (provider : Option ℕ)
      → let q = record_cost floats r session i o provider in
        (q.spent ≡ Dict.put r.spent session (spent_by r session + i + o))
        × (q.cap ≡ r.cap)
        × (q.on_exceed ≡ r.on_exceed)
        × (q.warned_sessions ≡ r.warned_sessions)
  unfolding record_cost
  charged r session i o provider =
      charge_usd-keeps (record r { spent = Dict.put r.spent session (spent_by r session + i + o) })
        session i o r.usd_cap (price_for r provider)

  -- Charging a session adds what the call used to it and to no other.
  record_cost-spent_by :
      (r : ModelRouter F) (session other : String) (i o : ℕ) (provider : Option ℕ)
      → spent_by (record_cost floats r session i o provider) other
        ≡ (if str_eq session other then spent_by r session + i + o else spent_by r other)
  unfolding spent_by
  record_cost-spent_by r session other i o provider =
      let n = spent_by r session + i + o in
      rw ((charged r session i o provider).0, Dict.get-put)
        (elim (Bool-cases (str_eq session other)) [
          | inl same ↦ rw same refl
          | inr different ↦ rw different refl
        ])

  -- The core's use of the router for one call.
  unfoldable pub after_verdict : Call → ModelRouter F × BudgetVerdict → ModelRouter F
  after_verdict c (r, v) = elim v.action [
    | refuse ↦ r
    | _ ↦ record_cost floats r c.session c.tokens_in c.tokens_out c.provider
  ]

  unfoldable pub run_calls : ModelRouter F → List Call → ModelRouter F
  unfolding after_verdict
  run_calls r [] = r
  run_calls r (c ∷ cs) = run_calls (after_verdict c (budget_verdict floats r c.session)) cs

  -- No session has spent the cap and another call's worth.
  abbrev Within : ℕ → ℕ → ModelRouter F → Type 0
  Within ceiling most r =
      (r.cap ≡ some ceiling)
      × (r.on_exceed ≡ block)
      × ((s : String) → spent_by r s < ceiling + most)

  not_over :
      (r : ModelRouter F) (session : String)
      → exceeded_note floats r session ≡ none
      → over_tokens floats r.cap (spent_by r session) ≡ false
  unfolding exceeded_note
  not_over r session e = elim (Bool-cases (over_tokens floats r.cap (spent_by r session))) [
    | inl over ↦ absurd (cc (rw over at e))
    | inr under ↦ under
  ]

  Within-verdict :
      (ceiling most : ℕ) (r : ModelRouter F) (c : Call)
      → c.tokens_in + c.tokens_out ≤ most
      → Within ceiling most r
      → Within ceiling most (after_verdict c (budget_verdict floats r c.session))
  unfolding after_verdict budget_verdict
  Within-verdict ceiling most r c small (e, f, w) =
      elim (Option-cases (exceeded_note floats r c.session)) [
        | inl under ↦
            let kept = charged r c.session c.tokens_in c.tokens_out c.provider in
            let n = not_over r c.session under in
            let room : spent_by r c.session < ceiling = let m = rw e at n in ground arith in
            rw under (
              kept.1 ∙ e,
              kept.2 ∙ f,
              λ s.
                  rw (record_cost-spent_by r c.session s c.tokens_in c.tokens_out c.provider)
                    (elim (Bool-cases (str_eq c.session s)) [
                      | inl same ↦ rw same (omega (arith, room, small))
                      | inr other ↦ rw other (w s)
                    ]),
            )
        | inr (note, over) ↦ rw (over, f, verdict_for) (e, f, w)
      ]

  -- A session overshoots its token budget by less than one call: where the budget blocks and no call
  -- uses more than `most` tokens, no session of a history has ever spent `ceiling + most`.
  pub run_calls-overshoot :
      (ceiling most : ℕ) (r : ModelRouter F) (cs : List Call)
      → r.cap ≡ some ceiling
      → r.on_exceed ≡ block
      → r.spent ≡ []
      → 1 ≤ ceiling
      → All (λ c. c.tokens_in + c.tokens_out ≤ most) cs
      → (session : String) → spent_by (run_calls r cs) session < ceiling + most
  unfolding run_calls spent_by Dict.get
  run_calls-overshoot ceiling most r cs e f g pos small =
      (go r cs small (e, f, λ s. rw g (omega arith))).2
    where
      go :
          (r : ModelRouter F) (cs : List Call)
          → All (λ c. c.tokens_in + c.tokens_out ≤ most) cs
          → Within ceiling most r
          → Within ceiling most (run_calls r cs)
      go r [] h w = w
      go r (c ∷ cs) h w =
          go (after_verdict c (budget_verdict floats r c.session)) cs h.1
            (Within-verdict ceiling most r c h.0 w)
