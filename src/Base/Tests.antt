-- ===== src/Base/Tests.antt =====
-- Boolean tests on native numbers and texts, the conditional, results of code that may raise.
use Prim.Native.Nat.{ℕ, compare, Ordering}
use Prim.Native.String.{String}
use mathlib.Core.Path.{◌≡◌, refl, ap}
use mathlib.Core.Logic.{◌↔◌, ◌⊎◌, inl, inr}
use mathlib.Core.Bool.{Bool, true, false}
use mathlib.Core.Option.{Option, none, some}
use native.Mathlib.Omega.{arith}
use text.Mathlib.Text.{◌==◌ as text_eq}

abbrev pub ltb : ℕ → ℕ → Bool
ltb a b = elim (compare a b) [ Ordering.lt ↦ true | _ ↦ false ]

abbrev pub leb : ℕ → ℕ → Bool
leb a b = elim (compare a b) [ Ordering.gt ↦ false | _ ↦ true ]

infix 50 ◌==◌
abbrev pub ◌==◌ : ℕ → ℕ → Bool
a == b = elim (compare a b) [ Ordering.eq ↦ true | _ ↦ false ]

-- Equality of texts.
abbrev pub str_eq : String → String → Bool
str_eq s t = text_eq s t

infix 1 if◌then◌else◌
abbrev pub if◌then◌else◌ {ℓ} : {A : Type ℓ} → Bool → A → A → A
if true then x else y = x
if false then x else y = y

pub ==_iff : (a b : ℕ) → ((a == b) ≡ true) ↔ (a ≡ b)
==_iff a b = ground arith

pub Bool-cases : (b : Bool) → (b ≡ true) ⊎ (b ≡ false)
Bool-cases true = inl refl
Bool-cases false = inr refl

pub Option-cases {ℓ} : {A : Type ℓ} (o : Option A) → (o ≡ none) ⊎ ((a : A) × (o ≡ some a))
Option-cases none = inl refl
Option-cases (some a) = inr (a, refl)

-- An integer: a count, or a negative number, one further from 0 than what it holds.
pub data ℤ : Type 0 where
  pos negsuc : ℕ → ℤ

-- What a call that may raise `E` gives.
pub data Result {ℓ} (E A : Type ℓ) : Type ℓ where
  ok : A → Result E A
  err : E → Result E A

-- A statement about a conditional, from one about each branch.
pub if_elim {ℓ κ} :
    {A : Type ℓ} (P : A → Type κ) (b : Bool) (x y : A)
    → (b ≡ true → P x)
    → (b ≡ false → P y)
    → P (if b then x else y)
if_elim P true x y t e = t refl
if_elim P false x y t e = e refl

pub Option_elim {ℓ κ} :
    {A : Type ℓ} (P : Option A → Type κ) (o : Option A)
    → (o ≡ none → P none)
    → ((a : A) → o ≡ some a → P (some a))
    → P o
Option_elim P none n s = n refl
Option_elim P (some a) n s = s a refl

abbrev from_ok {ℓ} : {E A : Type ℓ} → A → Result E A → A
from_ok a (ok b) = b
from_ok a (err e) = a

pub ok-injective {ℓ} : {E A : Type ℓ} {a b : A} → ◌≡◌ {A = Result E A} (ok a) (ok b) → a ≡ b
ok-injective {a = a} p = ap (from_ok a) p

pub eq_of_some {ℓ} : {A : Type ℓ} {a b : A} → some a ≡ some b → a ≡ b
eq_of_some p = cc

-- What an overwritten dictionary holds at a key: the new value, or what it held.
pub if_some_cases {ℓ} :
    {A : Type ℓ} (b : Bool) (a w : A) (q o : Option A)
    → o ≡ (if b then some a else q)
    → o ≡ some w
    → (a ≡ w) ⊎ (q ≡ some w)
if_some_cases true a w q o p e = inl (cc)
if_some_cases false a w q o p e = inr (cc)

abbrev from_err {ℓ} : {E A : Type ℓ} → E → Result E A → E
from_err d (ok b) = d
from_err d (err e) = e

pub err-injective {ℓ} : {E A : Type ℓ} {a b : E} → ◌≡◌ {A = Result E A} (err a) (err b) → a ≡ b
err-injective {a = a} p = ap (from_err a) p
