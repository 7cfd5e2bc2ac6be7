-- ===== src/Prompt/Fence.antt =====
-- What `_defang_marker_runs` of prompt_assembler.py leaves in a text: no run that a fence marker needs.
use Prim.Native.Char.{Char}
use agent_keep.Base.{
  ℕ, suc, ◌≤◌, Bool, true, false, not, ◌≡◌, refl, sym, ap, ◌∙◌, inl, inr, List, [], ◌∷◌, ◌++◌,
  arith, ltb, leb, if◌then◌else◌, Bool-cases,
}
use agent_keep.Prompt.Defang.{
  Side, opening, closing, CharKind, angle, zero_width, plain, kind_of, same_side, Pending, idle,
  run, flush, start, extend, feed, substitute,
}

-- How many angles of one side stand in a row at the end of a text, zero-width characters aside.
pub data Tally : Type 0 where
  clear broken : Tally
  one two : Side → Tally

abbrev pub count_char : Tally → CharKind → Tally
count_char broken _ = broken
count_char clear (angle side) = one side
count_char (one side) (angle other) = if same_side side other then two side else one other
count_char (two side) (angle other) = if same_side side other then broken else one other
count_char t zero_width = t
count_char _ plain = clear

unfoldable pub tally : Tally → List Char → Tally
tally t [] = t
tally t (c ∷ s) = tally (count_char t (kind_of c)) s

abbrev pub is_broken : Tally → Bool
is_broken broken = true
is_broken _ = false

-- A text in which no three angles of one side stand in a row.
unfoldable pub is_defanged : List Char → Bool
unfolding tally
is_defanged s = not (is_broken (tally clear s))

pub tally-append : (t : Tally) (a b : List Char) → tally t (a ++ b) ≡ tally (tally t a) b
unfolding tally
tally-append t [] b = refl
tally-append t (c ∷ a) b = tally-append (count_char t (kind_of c)) a b

pub tally-broken : (s : List Char) → tally broken s ≡ broken
unfolding tally
tally-broken [] = refl
tally-broken (c ∷ s) = tally-broken s

-- The tally behind a run that was written.
abbrev pub ends : ℕ → Side → Tally
ends n side = if ltb n 2 then one side else two side

abbrev pub IsGap : List Char → Type 0
IsGap gap = (u : Tally) → tally u gap ≡ u

-- What a held run is, behind a text of the tally t.
abbrev pub IsHeld : Tally → Pending → Type 0
IsHeld t idle = t ≡ clear
IsHeld t (run side n first_two raw gap) =
    (1 ≤ n)
    × (tally t first_two ≡ ends n side)
    × (leb 3 n ≡ false → tally t raw ≡ ends n side)
    × IsGap gap

flush-tally :
    (t : Tally) (side : Side) (n : ℕ) (f r g : List Char)
    → IsHeld t (run side n f r g)
    → tally t (flush (run side n f r g)) ≡ ends n side
flush-tally t side n f r g (_, ef, er, eg) = elim (Bool-cases (leb 3 n)) [
  | inl many ↦ rw (many, tally-append t f g, eg (tally t f)) ef
  | inr few ↦ rw (few, tally-append t r g, eg (tally t r)) (er few)
]

pub tally-one :
    (t : Tally) (c : Char) (k : CharKind) → kind_of c ≡ k → tally t (c ∷ []) ≡ count_char t k
unfolding tally
tally-one t c k e = ap (count_char t) e

-- What feeding a character keeps.
abbrev pub IsFed : Tally → List Char × Pending → Type 0
IsFed t (written, held) = (is_broken (tally t written) ≡ false) × IsHeld (tally t written) held

-- One angle behind a tally, where no run of its side stands.
begun-IsHeld :
    (t : Tally) (side : Side) (c : Char)
    → kind_of c ≡ angle side
    → count_char t (angle side) ≡ one side
    → IsHeld t (run side 1 (c ∷ []) (c ∷ []) [])
unfolding tally
begun-IsHeld t side c e h = (
  omega arith,
  tally-one t c (angle side) e ∙ h,
  λ _. tally-one t c (angle side) e ∙ h,
  λ u. refl,
)

start-IsFed : (k : CharKind) (c : Char) → kind_of c ≡ k → IsFed clear (start k c)
unfolding tally
start-IsFed (angle side) c e = (refl, begun-IsHeld clear side c e refl)
start-IsFed zero_width c e =
    (ap is_broken (tally-one clear c zero_width e), tally-one clear c zero_width e)
start-IsFed plain c e = (ap is_broken (tally-one clear c plain e), tally-one clear c plain e)

ends_other :
    (n : ℕ) (a b : Side)
    → same_side a b ≡ false
    → (is_broken (ends n a) ≡ false) × (count_char (ends n a) (angle b) ≡ one b)
ends_other n a b e = elim (Bool-cases (ltb n 2)) [
  | inl few ↦ rw (few, e) (refl, refl)
  | inr many ↦ rw (many, e) (refl, refl)
]

ends_unbroken : (n : ℕ) (side : Side) → is_broken (ends n side) ≡ false
ends_unbroken n side = ground arith

ends_plain : (n : ℕ) (side : Side) → count_char (ends n side) plain ≡ clear
ends_plain n side = ground arith

pub same_side_eq : (a b : Side) → same_side a b ≡ true → a ≡ b
same_side_eq opening opening e = refl
same_side_eq closing closing e = refl
same_side_eq opening closing e = cc
same_side_eq closing opening e = cc

pub count_zero_width : (t : Tally) → count_char t zero_width ≡ t
count_zero_width clear = refl
count_zero_width broken = refl
count_zero_width (one side) = refl
count_zero_width (two side) = refl

pub same_side_refl : (side : Side) → same_side side side ≡ true
same_side_refl opening = refl
same_side_refl closing = refl

one_more :
    (t : Tally) (side : Side) (n : ℕ) (s : List Char) (c : Char)
    → kind_of c ≡ angle side
    → 1 ≤ n
    → ltb n 2 ≡ true
    → tally t s ≡ ends n side
    → tally t (s ++ c ∷ []) ≡ ends (suc n) side
one_more t side n s c e h few es =
    let late : ltb (suc n) 2 ≡ false = ground arith in
    rw
      (
        late,
        tally-append t s (c ∷ []),
        es,
        few,
        tally-one (one side) c (angle side) e,
        same_side_refl side,
      )
      refl

-- An angle more, of the run's side.
grown-IsHeld :
    (t : Tally) (side : Side) (n : ℕ) (f r g : List Char) (c : Char)
    → kind_of c ≡ angle side
    → IsHeld t (run side n f r g)
    → IsHeld t (run side (suc n) (if ltb n 2 then f ++ c ∷ [] else f) (r ++ g ++ c ∷ []) [])
unfolding tally
grown-IsHeld t side n f r g c e (h, ef, er, eg) = elim (Bool-cases (ltb n 2)) [
  | inl few ↦ (
    omega arith,
    rw few (one_more t side n f c e h few ef),
    λ _.
        one_more t side n (r ++ g) c e h few
          (tally-append t r g ∙ eg (tally t r) ∙ er (ground arith)),
    λ u. refl,
  )
  | inr many ↦
      let late : ltb (suc n) 2 ≡ false = ground arith in
      (omega arith, rw (many, late) (rw many at ef), λ few. ground arith, λ u. refl)
]

extend-IsFed :
    (t : Tally) (side : Side) (n : ℕ) (f r g : List Char) (k : CharKind) (c : Char)
    → kind_of c ≡ k
    → is_broken t ≡ false
    → IsHeld t (run side n f r g)
    → IsFed t (extend side n f r g k c)
unfolding tally
extend-IsFed t side n f r g (angle other) c e b h = elim (Bool-cases (same_side side other)) [
  | inl same ↦
      rw same
        (b, grown-IsHeld t side n f r g c (e ∙ ap angle (sym (same_side_eq side other same))) h)
  | inr apart ↦
      rw (apart, flush-tally t side n f r g h)
        (
          (ends_other n side other apart).0,
          begun-IsHeld (ends n side) other c e (ends_other n side other apart).1,
        )
]
extend-IsFed t side n f r g zero_width c e b (h, ef, er, eg) = (
  b,
  (
    h,
    ef,
    er,
    λ u.
        tally-append u g (c ∷ [])
        ∙ tally-one (tally u g) c zero_width e
        ∙ count_zero_width (tally u g)
        ∙ eg u,
  ),
)
extend-IsFed t side n f r g plain c e b h =
    let cleared : tally t (flush (run side n f r g) ++ c ∷ []) ≡ clear =
      tally-append t (flush (run side n f r g)) (c ∷ [])
      ∙ ap (λ u. tally u (c ∷ [])) (flush-tally t side n f r g h)
      ∙ tally-one (ends n side) c plain e
      ∙ ends_plain n side in
    (ap is_broken cleared, cleared)

pub feed-IsFed :
    (t : Tally) (p : Pending) (c : Char) → is_broken t ≡ false → IsHeld t p → IsFed t (feed p c)
feed-IsFed t idle c b h = rw h (start-IsFed (kind_of c) c refl)
feed-IsFed t (run side n f r g) c b h = extend-IsFed t side n f r g (kind_of c) c refl b h

flush-unbroken :
    (t : Tally) (p : Pending)
    → is_broken t ≡ false
    → IsHeld t p
    → is_broken (tally t (flush p)) ≡ false
unfolding tally
flush-unbroken t idle b h = b
flush-unbroken t (run side n f r g) b h = rw (flush-tally t side n f r g h) (ends_unbroken n side)

pub substitute-unbroken :
    (s : List Char) (t : Tally) (p : Pending)
    → is_broken t ≡ false
    → IsHeld t p
    → is_broken (tally t (substitute p s)) ≡ false
unfolding substitute
substitute-unbroken [] t p b h = flush-unbroken t p b h
substitute-unbroken (c ∷ s) t p b h =
    let (written, held) = feed p c in
    let (w, k) = feed-IsFed t p c b h in
    rw (tally-append t (feed p c).0 (substitute (feed p c).1 s))
      (substitute-unbroken s (tally t (feed p c).0) (feed p c).1 w k)
