-- ===== src/Wiring/Reports.antt =====
-- Lists of missing selections: when they are empty.
use agent_keep.Base.{
  Bool, true, false, not, Option, none, some, List, [], ◌∷◌, ◌≡◌, ◌↔◌, refl, is_empty,
  if◌then◌else◌,
}
use agent_keep.Spec.Check.{Optionally}
use agent_keep.Wiring.Guards.{Missing, missing_if}

pub missing_if_iff :
    (b : Bool) (m : Missing) → (is_empty (missing_if (not b) m) ≡ true) ↔ (b ≡ true)
missing_if_iff true m = (λ h. refl, λ h. refl)
missing_if_iff false m = (λ h. absurd (cc h), λ h. absurd (cc h))

-- A choice that the library can build, by a test of it.
pub buildable_iff :
    {P : Type 0} (b : Bool) (m : Missing)
    → ((b ≡ true) ↔ P)
    → (is_empty (missing_if (not b) m) ≡ true) ↔ P
buildable_iff b m p = let i = missing_if_iff b m in (λ h. p.0 (i.0 h), λ x. i.1 (p.1 x))

-- A guard behind another.
pub guarded_iff :
    {P Q : Type 0} (b : Bool) (m : Missing) (rest : List Missing)
    → ((b ≡ true) ↔ P)
    → ((is_empty rest ≡ true) ↔ Q)
    → (is_empty (if not b then m ∷ [] else rest) ≡ true) ↔ (P × Q)
guarded_iff true m rest p q = (λ h. (p.0 refl, q.0 h), λ (x, y). q.1 y)
guarded_iff false m rest p q = (λ h. absurd (cc h), λ (x, y). absurd (cc (p.1 x)))

-- Nothing to report about a section that is absent.
pub optional_missing_iff :
    {A : Type 0} (P : A → Type 0) (missing : Option A → List Missing)
    → is_empty (missing none) ≡ true
    → ((a : A) → (is_empty (missing (some a)) ≡ true) ↔ P a)
    → (o : Option A) → (is_empty (missing o) ≡ true) ↔ Optionally P o
optional_missing_iff P missing n s none = (λ h. tt, λ h. n)
optional_missing_iff P missing n s (some a) = s a
