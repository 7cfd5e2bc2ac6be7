-- ===== src/Base/Separated.antt =====
-- Texts around a separator: what stands before the first one can be read off.
use Prim.Native.String.{String}
use Prim.Native.String
use Prim.Native.Char.{Char, code}
use mathlib.Core.Path.{◌≡◌, refl, sym, ap, ◌∙◌}
use text.Mathlib.TextLemmas.{nil-append, cons-append, head-eq_of_cons-eq, tail-eq_of_cons-eq}

infixr 65 ◌⊕◌
abbrev pub ◌⊕◌ : String → String → String
s ⊕ t = String.◌++◌ s t

-- The character does not stand in the text.
abbrev pub HasNo : Char → String → Type 0
HasNo c String.[] = Unit
HasNo c (String.◌∷◌ d s) = (code d ≡ code c → ⊥) × HasNo c s

-- A text without the separator is all that stands before the first one.
pub separator_split :
    (c : Char) (p q x y : String)
    → HasNo c p
    → HasNo c q
    → p ⊕ String.◌∷◌ c x ≡ q ⊕ String.◌∷◌ c y
    → (p ≡ q) × (x ≡ y)
separator_split c String.[] String.[] x y hp hq e =
    (refl, tail-eq_of_cons-eq (sym (nil-append (String.◌∷◌ c x)) ∙ e ∙ nil-append (String.◌∷◌ c y)))
separator_split c String.[] (String.◌∷◌ d q) x y hp hq e = absurd (
    hq.0 (
      ap code (
        sym (
          head-eq_of_cons-eq
            (sym (nil-append (String.◌∷◌ c x)) ∙ e ∙ cons-append d q (String.◌∷◌ c y))))))
separator_split c (String.◌∷◌ b p) String.[] x y hp hq e = absurd (
    hp.0 (
      ap code (
        head-eq_of_cons-eq
          (sym (cons-append b p (String.◌∷◌ c x)) ∙ e ∙ nil-append (String.◌∷◌ c y)))))
separator_split c (String.◌∷◌ b p) (String.◌∷◌ d q) x y hp hq e =
    let f = sym (cons-append b p (String.◌∷◌ c x)) ∙ e ∙ cons-append d q (String.◌∷◌ c y) in
    let (h, k) = separator_split c p q x y hp.1 hq.1 (tail-eq_of_cons-eq f) in
    (cc (head-eq_of_cons-eq f, h), k)
