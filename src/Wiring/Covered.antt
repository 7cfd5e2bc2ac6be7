-- ===== src/Wiring/Covered.antt =====
-- What `ensure_buildable` lets through: the hosts that the spec's components contact are admitted by
-- the allowlist that the proxy enforces.
use agent_keep.Base.{
  ℕ, String, true, Option, some, List, [], ◌∷◌, ◌≡◌, ◌↔◌, refl, sym, inl, inr, Result, ok, err,
  ok-injective, is_empty, All, Bool-cases,
}
use mathlib.Core.Path.{subst}
use agent_keep.Egress.Text.{Text}
use agent_keep.Egress.Match.{egress_entry_allows, match_allowlist}
use agent_keep.Spec.Sections.{SpecSections}
use agent_keep.Spec.Validate.{UrlParts}
use agent_keep.Wiring.Guards.{Missing, unimplemented_selections}
use agent_keep.Wiring.Targets.{
  Violation, WiringError, EgressTarget, ◌>>=◌, egress_targets, any_allows, violations_for, entries,
  egress_violations,
}
use agent_keep.Wiring.Select.{refuse_missing, refuse_violations, ensure_buildable}
use agent_keep.Wiring.Buildable.{IsBuildable, unimplemented_selections-IsBuildable}

-- The proxy's allowlist admits the target.
abbrev pub IsAdmitted : List String → Text → ℕ → Type 0
IsAdmitted egress host port =
    (entry : Text) × (match_allowlist (entries egress) host port ≡ some entry)

abbrev pub IsCovered : List String → EgressTarget → Type 0
IsCovered egress t = IsAdmitted egress t.host t.port

any_allows_iff :
    (es : List Text) (host : Text) (port : ℕ)
    → (any_allows es host port ≡ true)
      ↔ ((entry : Text) × (match_allowlist es host port ≡ some entry))
unfolding any_allows match_allowlist
any_allows_iff [] host port = (λ h. absurd (cc h), λ (e, q). absurd (cc q))
any_allows_iff (e ∷ es) host port =
    let ih = any_allows_iff es host port in
    elim (Bool-cases (egress_entry_allows e host port)) [
      | inl y ↦ rw y (λ h. (e, refl), λ h. refl)
      | inr n ↦ rw n ih
    ]

violations_for_iff :
    (ts : List EgressTarget) (egress : List String)
    → (is_empty (violations_for ts (entries egress)) ≡ true) ↔ All (IsCovered egress) ts
unfolding violations_for
violations_for_iff [] egress = (λ h. tt, λ h. refl)
violations_for_iff (t ∷ ts) egress =
    let ih = violations_for_iff ts egress in
    let a = any_allows_iff (entries egress) t.host t.port in
    elim (Bool-cases (any_allows (entries egress) t.host t.port)) [
      | inl y ↦ rw y (λ h. (a.0 y, ih.0 h), λ h. ih.1 h.1)
      | inr n ↦ rw n (λ h. absurd (cc h), λ h. absurd (cc (n, a.1 h.0)))
    ]

-- A spec whose targets can be read, all of them admitted.
abbrev pub IsReachable : {F : Type 0} → (String → Option UrlParts) → SpecSections F → Type 0
IsReachable urlsplit s =
    (targets : List EgressTarget) × (egress_targets urlsplit s ≡ ok targets)
    × All (IsCovered s.sandbox.egress) targets

refuse_missing_iff :
    (ms : List Missing) (rest : Result WiringError (Unit {0}))
    → ((refuse_missing ms >>= λ _. rest) ≡ ok tt) ↔ ((is_empty ms ≡ true) × (rest ≡ ok tt))
unfolding ◌>>=◌
refuse_missing_iff [] rest = (λ h. (refl, h), λ h. h.1)
refuse_missing_iff (m ∷ ms) rest = (λ h. absurd (cc h), λ h. absurd (cc (h.0)))

refuse_violations_iff :
    (vs : List Violation) → (refuse_violations vs ≡ ok tt) ↔ (is_empty vs ≡ true)
refuse_violations_iff [] = (λ h. refl, λ h. refl)
refuse_violations_iff (v ∷ vs) = (λ h. absurd (cc h), λ h. absurd (cc h))

covers_iff :
    (r : Result WiringError (List EgressTarget)) (egress : List String)
    → (((r >>= λ targets. ok (violations_for targets (entries egress))) >>= refuse_violations)
        ≡ ok tt)
      ↔ ((targets : List EgressTarget) × (r ≡ ok targets) × All (IsCovered egress) targets)
unfolding ◌>>=◌
covers_iff (ok ts) egress =
    let v = violations_for_iff ts egress in
    let r = refuse_violations_iff (violations_for ts (entries egress)) in
    (
      λ h. (ts, refl, v.0 (r.0 h)),
      λ (us, e, h). r.1 (v.1 (subst (All (IsCovered egress)) (sym (ok-injective e)) h)),
    )
covers_iff (err e) egress = (λ h. absurd (cc h), λ (us, q, h). absurd (cc q))

-- The guard passes exactly the specs that need nothing the library lacks, whose URLs can be read, and
-- whose every outbound host is admitted by the spec's own allowlist.
pub ensure_buildable_iff :
    {F : Type 0} (urlsplit : String → Option UrlParts) (known : List String) (s : SpecSections F)
    → (ensure_buildable urlsplit known s ≡ ok tt) ↔ (IsBuildable known s × IsReachable urlsplit s)
unfolding ensure_buildable egress_violations
ensure_buildable_iff urlsplit known s =
    let m =
      refuse_missing_iff (unimplemented_selections known s)
        (egress_violations urlsplit s >>= refuse_violations) in
    let b = unimplemented_selections-IsBuildable known s in
    let c = covers_iff (egress_targets urlsplit s) s.sandbox.egress in
    (λ h. (b.0 (m.0 h).0, c.0 (m.0 h).1), λ (x, y). m.1 (b.1 x, c.1 y))
