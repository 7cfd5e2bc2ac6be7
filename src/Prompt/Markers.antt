-- ===== src/Prompt/Markers.antt =====
-- `_defang_marker_runs` of prompt_assembler.py: which texts it leaves alone, and what no text that it
-- gives contains.
use Prim.Native.Char.{Char}
use mathlib.Core.List.{append_assoc, append-nil}
use agent_keep.Base.{
  ℕ, String, Bool, true, false, not, ◌≡◌, ◌≢◌, ◌↔◌, refl, sym, ap, ◌∙◌, inl, inr, List, [], ◌∷◌,
  ◌++◌, arith, ltb, leb, All, Bool-cases,
}
use agent_keep.Prompt.Defang.{
  Side, opening, closing, CharKind, angle, zero_width, plain, kind_of, same_side, Pending, idle,
  run, start, extend, feed, substitute, chars, from_chars, defang_marker_runs, chars-from_chars,
  from_chars-chars,
}
use agent_keep.Prompt.Fence.{
  Tally, clear, one, two, broken, count_char, count_zero_width, tally, is_broken, is_defanged,
  tally-append, tally-one, tally-broken, same_side_eq, same_side_refl, ends, IsHeld, IsGap,
  feed-IsFed, substitute-unbroken,
}

-- The text that is held back.
abbrev raw_of : Pending → List Char
raw_of idle = []
raw_of (run side n f r g) = r ++ g

-- Two angles at most are held back, which is no match.
abbrev IsFew : Pending → Type 0
IsFew idle = Unit
IsFew (run side n f r g) = leb 3 n ≡ false

-- A character is passed on, or held back with what was held.
abbrev IsKept : Pending → Char → List Char × Pending → Type 0
IsKept p c (written, held) = IsFew held × (written ++ raw_of held ≡ raw_of p ++ c ∷ [])

start-IsKept : (k : CharKind) (c : Char) → IsKept idle c (start k c)
start-IsKept (angle side) c = (refl, refl)
start-IsKept zero_width c = (tt, refl)
start-IsKept plain c = (tt, refl)

third_breaks :
    (t : Tally) (side : Side) (n : ℕ) (r g s : List Char) (c : Char)
    → kind_of c ≡ angle side
    → ltb n 2 ≡ false
    → tally t r ≡ ends n side
    → IsGap g
    → is_broken (tally t (r ++ g ++ c ∷ s)) ≡ true
unfolding tally
third_breaks t side n r g s c e many er eg =
    rw
      (
        tally-append t (r ++ g) (c ∷ s),
        tally-append t r g,
        eg (tally t r),
        er,
        many,
        e,
        same_side_refl side,
        tally-broken s,
      )
      refl

extend-IsKept :
    (t : Tally) (side : Side) (n : ℕ) (f r g s : List Char) (k : CharKind) (c : Char)
    → kind_of c ≡ k
    → IsHeld t (run side n f r g)
    → leb 3 n ≡ false
    → is_broken (tally t (r ++ g ++ c ∷ s)) ≡ false
    → IsKept (run side n f r g) c (extend side n f r g k c)
extend-IsKept t side n f r g s (angle other) c e (_, _, er, eg) few unbroken =
    elim (Bool-cases (same_side side other)) [
      | inl same ↦ rw same (elim (Bool-cases (ltb n 2)) [
        | inl one_only ↦ (ground arith, append-nil (r ++ g ++ c ∷ []))
        | inr many ↦
            let broke =
              third_breaks t side n r g s c (e ∙ ap angle (sym (same_side_eq side other same))) many
                (er few) eg in
            cc
      ])
      | inr apart ↦ rw (apart, few) (refl, refl)
    ]
extend-IsKept t side n f r g s zero_width c e h few unbroken =
    (few, sym (append_assoc r g (c ∷ [])))
extend-IsKept t side n f r g s plain c e h few unbroken = rw few (tt, append-nil (r ++ g ++ c ∷ []))

feed-IsKept :
    (t : Tally) (p : Pending) (c : Char) (s : List Char)
    → IsHeld t p
    → IsFew p
    → is_broken (tally t (raw_of p ++ c ∷ s)) ≡ false
    → IsKept p c (feed p c)
feed-IsKept t idle c s h few unbroken = start-IsKept (kind_of c) c
feed-IsKept t (run side n f r g) c s h few unbroken =
    extend-IsKept t side n f r g s (kind_of c) c refl h few unbroken

substitute-fixed :
    (s : List Char) (t : Tally) (p : Pending)
    → is_broken t ≡ false
    → IsHeld t p
    → IsFew p
    → is_broken (tally t (raw_of p ++ s)) ≡ false
    → substitute p s ≡ raw_of p ++ s
unfolding substitute
substitute-fixed [] t idle u h few unbroken = refl
substitute-fixed [] t (run side n f r g) u h few unbroken = rw few (sym (append-nil (r ++ g)))
substitute-fixed (c ∷ s) t p u h few unbroken =
    let (few', kept) = feed-IsKept t p c s h few unbroken in
    let (u', h') = feed-IsFed t p c u h in
    let whole : (feed p c).0 ++ (raw_of (feed p c).1 ++ s) ≡ raw_of p ++ c ∷ s =
      sym (append_assoc (feed p c).0 (raw_of (feed p c).1) s)
      ∙ ap (λ a. a ++ s) kept
      ∙ append_assoc (raw_of p) (c ∷ []) s in
    let left : is_broken (tally (tally t (feed p c).0) (raw_of (feed p c).1 ++ s)) ≡ false =
      rw (sym (tally-append t (feed p c).0 (raw_of (feed p c).1 ++ s)), whole) unbroken in
    ap (λ a. (feed p c).0 ++ a)
      (substitute-fixed s (tally t (feed p c).0) (feed p c).1 u' h' few' left)
    ∙ whole

negation_iff : (b : Bool) → (not b ≡ true) ↔ (b ≡ false)
negation_iff b = ground arith

pub defang-is_defanged : (text : String) → is_defanged (chars (defang_marker_runs text)) ≡ true
unfolding is_defanged defang_marker_runs
defang-is_defanged text =
    rw (chars-from_chars (substitute idle (chars text)))
      ((negation_iff _).1 (substitute-unbroken (chars text) clear idle refl refl))

-- A text has no run of three angles of one side, zero-width characters between them aside, exactly if
-- defanging leaves every character of it as it is. So a defanged text is defanged, and defanging it
-- again changes nothing.
pub defang_fixed_iff :
    (text : String) → (is_defanged (chars text) ≡ true) ↔ (defang_marker_runs text ≡ text)
unfolding is_defanged defang_marker_runs
defang_fixed_iff text = (
  λ safe.
      ap from_chars
        (substitute-fixed (chars text) clear idle refl refl tt ((negation_iff _).0 safe))
      ∙ from_chars-chars text,
  λ fixed.
      rw (sym fixed, chars-from_chars (substitute idle (chars text)))
        ((negation_iff _).1 (substitute-unbroken (chars text) clear idle refl refl)),
)

same_breaks :
    (t : Tally) (side : Side)
    → count_char (count_char (count_char t (angle side)) (angle side)) (angle side) ≡ broken
same_breaks broken side = refl
same_breaks clear opening = refl
same_breaks clear closing = refl
same_breaks (one opening) opening = refl
same_breaks (one opening) closing = refl
same_breaks (one closing) opening = refl
same_breaks (one closing) closing = refl
same_breaks (two opening) opening = refl
same_breaks (two opening) closing = refl
same_breaks (two closing) opening = refl
same_breaks (two closing) closing = refl

-- Three angles of one side, with nothing but zero-width characters between them.
pub record Marker (side : Side) : Type 0 where
  pub first : Char
  pub gap : List Char
  pub second : Char
  pub next_gap : List Char
  pub third : Char
  pub first_kind : kind_of first ≡ angle side
  pub second_kind : kind_of second ≡ angle side
  pub third_kind : kind_of third ≡ angle side
  pub gap_kind : All (λ c. kind_of c ≡ zero_width) gap
  pub next_gap_kind : All (λ c. kind_of c ≡ zero_width) next_gap

abbrev pub marker_text : {side : Side} → Marker side → List Char
marker_text m = m.first ∷ m.gap ++ m.second ∷ m.next_gap ++ m.third ∷ []

gap-tally : (t : Tally) (gap : List Char) → All (λ c. kind_of c ≡ zero_width) gap → tally t gap ≡ t
unfolding tally
gap-tally t [] h = refl
gap-tally t (c ∷ gap) h = rw (h.0, count_zero_width t) (gap-tally t gap h.1)

angle-tally :
    (t : Tally) (side : Side) (c : Char) (gap : List Char)
    → kind_of c ≡ angle side
    → All (λ c. kind_of c ≡ zero_width) gap
    → tally t (c ∷ gap) ≡ count_char t (angle side)
unfolding tally
angle-tally t side c gap e h = rw e (gap-tally (count_char t (angle side)) gap h)

marker-tally : (t : Tally) (side : Side) (m : Marker side) → tally t (marker_text m) ≡ broken
marker-tally t side m =
    rw
      (
        tally-append t (m.first ∷ m.gap ++ m.second ∷ m.next_gap) (m.third ∷ []),
        tally-append t (m.first ∷ m.gap) (m.second ∷ m.next_gap),
        angle-tally t side m.first m.gap m.first_kind m.gap_kind,
        angle-tally (count_char t (angle side)) side m.second m.next_gap m.second_kind
            m.next_gap_kind,
        tally-one (count_char (count_char t (angle side)) (angle side)) m.third (angle side)
            m.third_kind,
      )
      (same_breaks t side)

contradicts : ¬ (false ≡ true)
contradicts e = cc

-- However a text is written, its defanged form contains no three angles of one side with nothing but
-- zero-width characters between them: neither `<<<` nor `>>>`, in any spelling of the classes.
pub defang_no_marker :
    (text : String) (side : Side) (m : Marker side) (before after : List Char)
    → chars (defang_marker_runs text) ≢ before ++ marker_text m ++ after
unfolding defang_marker_runs
defang_no_marker text side m before after e =
    let unbroken : is_broken (tally clear (substitute idle (chars text))) ≡ false =
      substitute-unbroken (chars text) clear idle refl refl in
    let seen : substitute idle (chars text) ≡ before ++ marker_text m ++ after =
      sym (chars-from_chars (substitute idle (chars text))) ∙ e in
    let broke : tally clear (before ++ marker_text m ++ after) ≡ broken =
      tally-append clear (before ++ marker_text m) after
      ∙ ap (λ w. tally w after)
          (tally-append clear before (marker_text m) ∙ marker-tally (tally clear before) side m)
      ∙ tally-broken after in
    contradicts (sym unbroken ∙ ap is_broken (ap (tally clear) seen ∙ broke))
