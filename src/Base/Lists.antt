-- ===== src/Base/Lists.antt =====
-- Lists measured by native numbers, membership by a test, sorted names.
use Prim.Native.Nat.{ℕ, suc, ◌+◌, Ordering}
use Prim.Native.String.{String}
use Prim.Native.String
use mathlib.Core.Path.{◌≡◌, refl}
use mathlib.Core.Logic.{◌↔◌}
use mathlib.Core.Bool.{Bool, true, false, ◌||◌}
use mathlib.Core.List.{List, [], ◌∷◌, ◌++◌}
use native.Mathlib.Omega.{arith}
use agent_keep.Base.Tests.{str_eq}

module _ {ℓ} {A : Type ℓ} where
  abbrev pub length : List A → ℕ
  length [] = 0
  length (x ∷ xs) = suc (length xs)

  abbrev pub is_empty : List A → Bool
  is_empty [] = true
  is_empty (x ∷ xs) = false

  pub length-append : (xs ys : List A) → length (xs ++ ys) ≡ length xs + length ys
  length-append [] ys = omega arith
  length-append (x ∷ xs) ys = omega (arith, length-append xs ys)

  -- A predicate of every entry.
  abbrev pub All {κ} : (A → Type κ) → List A → Type κ
  All P [] = Unit
  All P (x ∷ xs) = P x × All P xs

  pub All-append {κ} : (P : A → Type κ) (xs ys : List A) → All P xs → All P ys → All P (xs ++ ys)
  All-append P [] ys hx hy = hy
  All-append P (x ∷ xs) ys hx hy = (hx.0, All-append P xs ys hx.1 hy)

pub is_empty-append :
    {A : Type 0} (xs ys : List A)
    → (is_empty (xs ++ ys) ≡ true) ↔ ((is_empty xs ≡ true) × (is_empty ys ≡ true))
is_empty-append [] ys = (λ h. (refl, h), λ h. h.1)
is_empty-append (x ∷ xs) ys = (λ h. absurd (cc h), λ h. absurd (cc (h.0)))

-- Two lists of errors, side by side.
pub both_empty :
    {A P Q : Type 0} (xs ys : List A)
    → ((is_empty xs ≡ true) ↔ P)
    → ((is_empty ys ≡ true) ↔ Q)
    → (is_empty (xs ++ ys) ≡ true) ↔ (P × Q)
both_empty xs ys p q =
    let b = is_empty-append xs ys in
    (λ h. (p.0 (b.0 h).0, q.0 (b.0 h).1), λ (x, y). b.1 (p.1 x, q.1 y))

-- `name in names`
unfoldable pub contains : List String → String → Bool
contains [] name = false
contains (x ∷ xs) name = str_eq x name || contains xs name

-- The pieces of an f-string, put together.
abbrev pub concat : List String → String
concat [] = ""
concat (s ∷ ss) = String.◌++◌ s (concat ss)

-- `separator.join(pieces)`
unfoldable pub join : String → List String → String
join separator [] = ""
join separator (s ∷ []) = s
join separator (s ∷ t ∷ ss) = String.◌++◌ s (String.◌++◌ separator (join separator (t ∷ ss)))

unfoldable pub insert_name : String → List String → List String
insert_name s [] = s ∷ []
insert_name s (t ∷ ts) = elim (String.compare s t) [
  | Ordering.gt ↦ t ∷ insert_name s ts
  | _ ↦ s ∷ t ∷ ts
]

-- `sorted(names)`, by the code points
unfoldable pub sort_names : List String → List String
unfolding insert_name
sort_names [] = []
sort_names (s ∷ ss) = insert_name s (sort_names ss)

is_empty-insert_name : (s : String) (ss : List String) → is_empty (insert_name s ss) ≡ false
unfolding insert_name
is_empty-insert_name s [] = refl
is_empty-insert_name s (t ∷ ts) = ground arith

pub is_empty-sort_names : (ss : List String) → is_empty (sort_names ss) ≡ is_empty ss
unfolding sort_names
is_empty-sort_names [] = refl
is_empty-sort_names (s ∷ ss) = is_empty-insert_name s (sort_names ss)
