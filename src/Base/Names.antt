-- ===== src/Base/Names.antt =====
-- Names in a list: membership, names that stand twice, Python's sets of names.
use Prim.Native.Nat.{ℕ, ◌+◌, ◌≤◌}
use Prim.Native.String.{String}
use Prim.Native.Char.{code}
use mathlib.Core.Path.{◌≡◌, refl, sym, ap, ◌∙◌, subst}
use mathlib.Core.Logic.{◌↔◌, ◌⊎◌, inl, inr}
use mathlib.Core.Bool.{true, ◌||◌}
use mathlib.Core.List.{List, [], ◌∷◌, ◌++◌, map}
use native.Mathlib.Omega.{arith}
use text.Mathlib.TextEquality.{eq_iff}
use agent_keep.Base.Tests.{str_eq, ltb, if◌then◌else◌, Bool-cases}
use agent_keep.Base.Lists.{is_empty, All, contains, insert_name, sort_names, is_empty-sort_names}

-- The code points of a text.
unfoldable pub codes : String → List ℕ
codes String.[] = []
codes (String.◌∷◌ c s) = code c ∷ codes s

module _ {A : Type 0} where
  abbrev pub In : A → List A → Type 0
  In a [] = ⊥
  In a (x ∷ xs) = (x ≡ a) ⊎ In a xs

  pub In-append : (a : A) (xs ys : List A) → In a (xs ++ ys) ↔ (In a xs ⊎ In a ys)
  In-append a [] ys = (λ h. inr h, λ o. elim o [ inl e ↦ absurd e | inr h ↦ h ])
  In-append a (x ∷ xs) ys = (
    λ h. elim h [
      | inl e ↦ inl (inl e)
      | inr r ↦ elim ((In-append a xs ys).0 r) [ inl p ↦ inl (inr p) | inr q ↦ inr q ]
    ],
    λ h. elim h [
      | inl o ↦ elim o [ inl e ↦ inl e | inr p ↦ inr ((In-append a xs ys).1 (inl p)) ]
      | inr q ↦ inr ((In-append a xs ys).1 (inr q))
    ],
  )

  -- A value that stands once.
  abbrev pub Unique : List A → Type 0
  Unique [] = Unit
  Unique (x ∷ xs) = (¬ In x xs) × Unique xs

pub contains_iff :
    (names : List String) (name : String) → (contains names name ≡ true) ↔ In name names
unfolding contains
contains_iff [] name = (λ e. cc, λ h. absurd h)
contains_iff (x ∷ xs) name =
    let ih = contains_iff xs name in
    let eq = eq_iff x name in
    (
      λ e. elim (Bool-cases (str_eq x name)) [
        | inl y ↦ inl (eq.0 y)
        | inr n ↦ inr (ih.0 (rw n at e))
      ],
      λ h. elim h [ inl y ↦ rw (eq.1 y) refl | inr t ↦ ground (arith, ih.1 t) ],
    )

contains-insert_name :
    (s : String) (ss : List String) (name : String)
    → contains (insert_name s ss) name ≡ (str_eq s name || contains ss name)
unfolding contains insert_name
contains-insert_name s [] name = refl
contains-insert_name s (t ∷ ts) name = ground (arith, contains-insert_name s ts name)

pub contains-sort_names :
    (ss : List String) (name : String) → contains (sort_names ss) name ≡ contains ss name
unfolding contains sort_names
contains-sort_names [] name = refl
contains-sort_names (s ∷ ss) name =
    ground (arith, contains-insert_name s (sort_names ss) name, contains-sort_names ss name)

-- `set(names)`, in some order.
unfoldable pub as_set : List String → List String
as_set [] = []
as_set (n ∷ ns) = let rest = as_set ns in if contains ns n then rest else n ∷ rest

pub contains-as_set :
    (ss : List String) (name : String) → contains (as_set ss) name ≡ contains ss name
unfolding contains as_set
contains-as_set [] name = refl
contains-as_set (s ∷ ss) name = ground (arith, contains-as_set ss name, eq_iff s name)

is_empty-as_set : (ss : List String) → is_empty (as_set ss) ≡ is_empty ss
unfolding contains as_set
is_empty-as_set [] = refl
is_empty-as_set (s ∷ []) = refl
is_empty-as_set (s ∷ t ∷ ss) = ground (arith, is_empty-as_set (t ∷ ss))

-- `names.count(name)`
unfoldable pub count : List String → String → ℕ
count [] name = 0
count (x ∷ xs) name = (if str_eq x name then 1 else 0) + count xs name

unfoldable pub repeated : List String → List String → List String
repeated names [] = []
repeated names (n ∷ ns) =
    let rest = repeated names ns in if ltb 1 (count names n) then n ∷ rest else rest

-- `sorted({name for name in names if names.count(name) > 1})`
unfoldable pub duplicates : List String → List String
duplicates names = sort_names (as_set (repeated names names))

count-zero_iff : (xs : List String) (n : String) → (count xs n ≡ 0) ↔ (¬ In n xs)
unfolding count
count-zero_iff [] n = (λ _ h. h, λ _. refl)
count-zero_iff (x ∷ xs) n = (
  λ e h. elim h [
    | inl y ↦ absurd (ground (arith, eq_iff x n))
    | inr t ↦ (count-zero_iff xs n).0 (ground arith) t
  ],
  λ h. elim (Bool-cases (str_eq x n)) [
    | inl y ↦ absurd (h (inl ((eq_iff x n).0 y)))
    | inr f ↦ rw f (omega (arith, (count-zero_iff xs n).1 (λ t. h (inr t))))
  ],
)

count-Unique : (xs : List String) (n : String) → Unique xs → count xs n ≤ 1
unfolding count
count-Unique [] n u = omega arith
count-Unique (x ∷ xs) n u = elim (Bool-cases (str_eq x n)) [
  | inl y ↦ rw (y, (count-zero_iff xs n).1 (λ h. u.0 (subst_In ((eq_iff x n).0 y) h))) (omega arith)
  | inr f ↦ rw f (omega (arith, count-Unique xs n u.1))
]
  where
    subst_In : x ≡ n → In n xs → In x xs
    subst_In e h = rw e h

Unique-of_count : (xs : List String) → ((n : String) → In n xs → count xs n ≤ 1) → Unique xs
unfolding count
Unique-of_count [] h = tt
Unique-of_count (x ∷ xs) h = (
  (count-zero_iff xs x).0 (ground (arith, h x (inl refl), eq_iff x x)),
  Unique-of_count xs (λ n t. ground (arith, h n (inr t))),
)

repeated_le :
    (all ns : List String)
    → is_empty (repeated all ns) ≡ true
    → (n : String) → In n ns
    → count all n ≤ 1
unfolding repeated
repeated_le all [] e n h = absurd h
repeated_le all (m ∷ ns) e n h = elim h [
  | inl y ↦ rw (← y) (ground arith)
  | inr t ↦ repeated_le all ns (ground arith) n t
]

repeated_empty :
    (all ns : List String) → ((n : String) → count all n ≤ 1) → is_empty (repeated all ns) ≡ true
unfolding repeated
repeated_empty all [] h = refl
repeated_empty all (m ∷ ns) h = ground (arith, h m, repeated_empty all ns h)

-- No name is reported exactly if every name stands once.
pub is_empty-duplicates_iff :
    (names : List String) → (is_empty (duplicates names) ≡ true) ↔ Unique names
unfolding duplicates
is_empty-duplicates_iff names =
    let e =
      is_empty-sort_names (as_set (repeated names names))
      ∙ is_empty-as_set (repeated names names) in
    (
      λ h. Unique-of_count names (repeated_le names names (sym e ∙ h)),
      λ u. e ∙ repeated_empty names names (λ n. count-Unique names n u),
    )

-- Names of which none was seen before, and each stands once.
abbrev pub Fresh : List String → List String → Type 0
Fresh seen [] = Unit
Fresh seen (n ∷ ns) = (¬ In n seen) × Fresh (n ∷ seen) ns

pub Fresh-iff :
    (seen names : List String)
    → Fresh seen names ↔ (Unique names × ((n : String) → In n names → ¬ In n seen))
Fresh-iff seen [] = (λ h. (tt, λ n i. absurd i), λ h. tt)
Fresh-iff seen (m ∷ names) =
    let ih = Fresh-iff (m ∷ seen) names in
    (
      λ (f, h).
          let (u, d) = ih.0 h in
          (
            (λ i. d m i (inl refl), u),
            λ n i s. elim i [ inl e ↦ f (rw e s) | inr t ↦ d n t (inr s) ],
          ),
      λ (u, d). (
        d m (inl refl),
        ih.1 (u.1, λ n i s. elim s [ inl e ↦ u.0 (rw e i) | inr t ↦ d n (inr i) t ]),
      ),
    )

pub All-In : {A : Type 0} (P : A → Type 0) (xs : List A) (x : A) → All P xs → In x xs → P x
All-In P [] x h i = absurd i
All-In P (y ∷ ys) x h i = elim i [ inl e ↦ subst P e h.0 | inr t ↦ All-In P ys x h.1 t ]

pub In-map :
    {A : Type 0} (f : A → String) (n : String) (xs : List A)
    → In n (map f xs) ↔ ((x : A) × In x xs × (f x ≡ n))
In-map f n [] = (λ h. absurd h, λ (x, i, e). absurd i)
In-map f n (y ∷ ys) =
    let ih = In-map f n ys in
    (
      λ h. elim h [ inl e ↦ (y, inl refl, e) | inr t ↦ let (x, i, e) = ih.0 t in (x, inr i, e) ],
      λ (x, i, e). elim i [ inl q ↦ inl (ap f q ∙ e) | inr t ↦ inr (ih.1 (x, t, e)) ],
    )

pub All-of_In : {A : Type 0} (P : A → Type 0) (xs : List A) → ((x : A) → In x xs → P x) → All P xs
All-of_In P [] h = tt
All-of_In P (x ∷ xs) h = (h x (inl refl), All-of_In P xs (λ y i. h y (inr i)))
