-- ===== src/Egress/Text.antt =====
-- Texts that the program walks, as lists of code points. Host names are ASCII on both sides: the
-- schema's grammar admits no other entry, and a request target is decoded as ASCII.
use agent_keep.Base.{
  ℕ, ◌+◌, ◌-◌, ◌*◌, Bool, true, false, ◌&&◌, ◌≡◌, refl, List, [], ◌∷◌, ◌++◌, map, arith, leb, ◌==◌,
  ==_iff, if◌then◌else◌, ◌↔◌, inl, inr, ap, Bool-cases,
}

abbrev pub Text : Type 0
Text = List ℕ

unfoldable pub same_text : Text → Text → Bool
same_text [] [] = true
same_text [] (d ∷ t) = false
same_text (c ∷ s) [] = false
same_text (c ∷ s) (d ∷ t) = c == d && same_text s t

unfoldable pub lower_code : ℕ → ℕ
lower_code c = if leb b'A' c && leb c b'Z' then c + 32 else c

-- `s.lower()` of an ASCII text.
unfoldable pub lower : Text → Text
unfolding lower_code
lower s = map lower_code s

-- `s.endswith(suffix)`
unfoldable pub ends_with : Text → Text → Bool
unfolding same_text
ends_with [] suffix = same_text [] suffix
ends_with (c ∷ s) suffix =
    let rest = ends_with s suffix in if same_text (c ∷ s) suffix then true else rest

abbrev pub is_digit : ℕ → Bool
is_digit c = leb b'0' c && leb c b'9'

unfoldable pub all_digits : Text → Bool
all_digits [] = true
all_digits (c ∷ s) = is_digit c && all_digits s

-- `int(s)` of a text of decimal digits.
unfoldable pub number_from : ℕ → Text → ℕ
number_from n [] = n
number_from n (c ∷ s) = number_from (n * 10 + (c - b'0')) s

pub same_text_iff : (s t : Text) → (same_text s t ≡ true) ↔ (s ≡ t)
unfolding same_text
same_text_iff [] [] = (λ _. refl, λ _. refl)
same_text_iff [] (d ∷ t) = (λ e. cc, λ e. cc)
same_text_iff (c ∷ s) [] = (λ e. cc, λ e. cc)
same_text_iff (c ∷ s) (d ∷ t) = (
  λ e. ground (arith, ==_iff c d, (same_text_iff s t).0),
  λ e. ground (arith, ==_iff c d, (same_text_iff s t).1),
)

lower_code_idem : (c : ℕ) → lower_code (lower_code c) ≡ lower_code c
unfolding lower_code
lower_code_idem c = ground arith

pub lower_idem : (s : Text) → lower (lower s) ≡ lower s
unfolding lower
lower_idem [] = refl
lower_idem (c ∷ s) = cc (lower_code_idem c, lower_idem s)

ends_with-split : (s suffix : Text) → ends_with s suffix ≡ true → (p : Text) × (s ≡ p ++ suffix)
unfolding ends_with
ends_with-split [] suffix e = ([], (same_text_iff [] suffix).0 e)
ends_with-split (c ∷ s) suffix e = elim (Bool-cases (same_text (c ∷ s) suffix)) [
  | inl whole ↦ ([], (same_text_iff (c ∷ s) suffix).0 whole)
  | inr part ↦ let (p, q) = ends_with-split s suffix (rw part at e) in (c ∷ p, ap (◌∷◌ c) q)
]

ends_with-append : (p suffix : Text) → ends_with (p ++ suffix) suffix ≡ true
unfolding ends_with
ends_with-append [] [] = refl
ends_with-append [] (d ∷ t) = rw ((same_text_iff (d ∷ t) (d ∷ t)).1 refl)
ends_with-append (c ∷ p) suffix = elim (Bool-cases (same_text (c ∷ p ++ suffix) suffix)) [
  | inl whole ↦ rw whole
  | inr part ↦ rw part (ends_with-append p suffix)
]

-- A suffix is what remains behind some prefix.
pub ends_with_iff :
    (s suffix : Text) → (ends_with s suffix ≡ true) ↔ ((p : Text) × (s ≡ p ++ suffix))
ends_with_iff s suffix = (ends_with-split s suffix, λ (p, e). rw e (ends_with-append p suffix))
