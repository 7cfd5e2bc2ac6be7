-- ===== src/Spec/Check.antt =====
-- What a validator of keep_spec/models.py gives: nothing, or what its `ValueError` names. Validators
-- run one after another and the first error stops them; pydantic collects those of several fields.
use agent_keep.Base.{
  String, Bool, true, false, Option, none, some, List, [], ◌∷◌, ◌≡◌, ◌↔◌, refl, Result, ok, err,
  All, not, arith,
}
use agent_keep.Cron.Parse.{CronSyntaxError}
use agent_keep.Spec.Intake.{Method}
use agent_keep.Spec.Tools.{ApprovalPolicy}

-- The place of a provider selection: `models`, or a tier by its name.
pub data Site : Type 0 where
  default_site : Site
  tier_site : String → Site

-- A selectable model path without a price.
pub data UnpricedPath : Type 0 where
  static_path unpriced_path : Site → UnpricedPath

-- The errors, by what their messages name.
pub data Invalid : Type 0 where
  precedence_required precedence_unexpected : Invalid
  cron_syntax : CronSyntaxError → Invalid
  secret_required : Method → Invalid
  secret_unexpected : Invalid
  duplicate_principal : String → Invalid
  keywords_required keywords_unexpected : String → Invalid
  malformed_url embedded_credentials : String → Invalid
  duplicate_grants : String → List String → Invalid
  auto_approve_unexpected : ApprovalPolicy → Invalid
  malformed_host port_out_of_range : String → Invalid
  rate_missing : Invalid
  config_required : Site → String → Invalid
  config_unselected : Site → List String → Invalid
  duplicate_tiers duplicate_servers undeclared_grants : List String → Invalid
  unpriced_paths : List UnpricedPath → Invalid

abbrev pub Verdict : Type 0
Verdict = Result Invalid (Unit {0})

abbrev pub Accepts : Verdict → Type 0
Accepts v = v ≡ ok tt

unfoldable pub refuse_if : Bool → Invalid → Verdict
refuse_if true e = err e
refuse_if false e = ok tt

-- One validator, then the next.
infixr 6 ◌>>◌
unfoldable pub ◌>>◌ : Verdict → Verdict → Verdict
ok tt >> v = v
err e >> v = err e

unfoldable pub each {ℓ} : {A : Type ℓ} → (A → Verdict) → List A → Verdict
each check [] = ok tt
each check (x ∷ xs) = check x >> each check xs

unfoldable pub optional {ℓ} : {A : Type ℓ} → (A → Verdict) → Option A → Verdict
optional check none = ok tt
optional check (some x) = check x

abbrev pub Optionally {ℓ κ} : {A : Type ℓ} → (A → Type κ) → Option A → Type κ
Optionally P none = Unit
Optionally P (some x) = P x

pub refuse_if_iff : (b : Bool) (e : Invalid) → Accepts (refuse_if b e) ↔ (b ≡ false)
unfolding refuse_if
refuse_if_iff true e = (λ p. cc, λ p. cc)
refuse_if_iff false e = (λ p. refl, λ p. refl)

-- The error where a test fails.
pub passes : (b : Bool) (e : Invalid) → Accepts (refuse_if (not b) e) ↔ (b ≡ true)
passes b e =
    let r = refuse_if_iff (not b) e in (λ h. ground (arith, r.0 h), λ h. r.1 (ground arith))

pub >>_iff : (v w : Verdict) → Accepts (v >> w) ↔ (Accepts v × Accepts w)
unfolding ◌>>◌
>>_iff (ok tt) w = (λ p. (refl, p), λ (p, q). q)
>>_iff (err e) w = (λ p. absurd (cc p), λ (p, q). absurd (cc p))

pub each_iff {ℓ} :
    {A : Type ℓ} (P : A → Type 0) (check : A → Verdict)
    → ((x : A) → Accepts (check x) ↔ P x)
    → (xs : List A) → Accepts (each check xs) ↔ All P xs
unfolding each
each_iff P check h [] = (λ p. tt, λ p. refl)
each_iff P check h (x ∷ xs) =
    let b = >>_iff (check x) (each check xs) in
    let ih = each_iff P check h xs in
    (λ p. ((h x).0 (b.0 p).0, ih.0 (b.0 p).1), λ (p, q). b.1 ((h x).1 p, ih.1 q))

pub optional_iff {ℓ} :
    {A : Type ℓ} (P : A → Type 0) (check : A → Verdict)
    → ((x : A) → Accepts (check x) ↔ P x)
    → (o : Option A) → Accepts (optional check o) ↔ Optionally P o
unfolding optional
optional_iff P check h none = (λ p. tt, λ p. refl)
optional_iff P check h (some x) = h x

-- Two equivalences, side by side.
pub both_iff :
    (v w : Verdict) {P Q : Type 0} → (Accepts v ↔ P) → (Accepts w ↔ Q) → Accepts (v >> w) ↔ (P × Q)
both_iff v w p q =
    let b = >>_iff v w in (λ h. (p.0 (b.0 h).0, q.0 (b.0 h).1), λ (x, y). b.1 (p.1 x, q.1 y))
