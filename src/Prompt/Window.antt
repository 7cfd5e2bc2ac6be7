-- ===== src/Prompt/Window.antt =====
-- Which turns `assemble` of prompt_assembler.py replays under a window.
use mathlib.Core.List.{map-append}
use agent_keep.Base.{
  ℤ, pos, negsuc, ℕ, zero, suc, ◌+◌, ◌-◌, ◌≤◌, String, ◌≡◌, refl, sym, ap, ◌∙◌, none, some, List,
  [], ◌∷◌, ◌++◌, map, ok, arith, length, length-append, leb, if◌then◌else◌, ok-injective,
}
use agent_keep.Sessions.Keys.{Turn, Session}
use agent_keep.Core.Model.{PromptMessage}
use agent_keep.Prompt.Assemble.{
  PromptAssembler, make_assembler, drop_turns, last_turns, render, assemble,
}

-- `min(m, n)`
abbrev at_most : ℕ → ℕ → ℕ
at_most m n = if leb m n then m else n

drop_turns-split :
    (n : ℕ) (ts : List Turn)
    → n ≤ length ts
    → (older : List Turn) × (ts ≡ older ++ drop_turns n ts) × (length older ≡ n)
unfolding drop_turns
drop_turns-split zero ts h = ([], refl, refl)
drop_turns-split (suc n) [] h = absurd (omega arith)
drop_turns-split (suc n) (t ∷ ts) h =
    let (older, split, count) = drop_turns-split n ts (omega arith) in
    (t ∷ older, ap (◌∷◌ t) split, ap suc count)

length-map {ℓ} : {A B : Type ℓ} (f : A → B) (xs : List A) → length (map f xs) ≡ length xs
length-map f [] = refl
length-map f (x ∷ xs) = ap suc (length-map f xs)

-- What a window of m turns leaves of the messages of a full replay.
abbrev pub IsWindow : ℕ → ℕ → List PromptMessage → List PromptMessage → Type 0
IsWindow m count full shown =
    (older : List PromptMessage) × (full ≡ older ++ shown) × (length shown ≡ at_most m count)

last_turns-IsWindow :
    (m : ℕ) (ts : List Turn) → IsWindow m (length ts) (map render ts) (map render (last_turns m ts))
last_turns-IsWindow m ts =
    let (older, split, count) = drop_turns-split (length ts - m) ts (omega arith) in
    let total : length ts ≡ length older + length (last_turns m ts) =
      ap length split ∙ length-append older (last_turns m ts) in
    (
      map render older,
      ap (map render) split ∙ map-append render older (last_turns m ts),
      length-map render (last_turns m ts) ∙ ground arith,
    )

-- An assembler can be made for a window exactly of one turn or more, and replays the last turns of
-- the session, as many as the window or the session has: the same messages that the full replay ends
-- in, under the same system context.
pub assemble-IsWindow :
    (V : Type 0) (show : ℤ → String) (n : ℤ) (a : PromptAssembler) (persona : String)
    (session : Session) (recalled facts : List String)
    → make_assembler show (some n) ≡ ok a
    → (m : ℕ) × (n ≡ pos (suc m))
      × IsWindow
          (suc m)
          (length session.turns)
          (assemble {V = V}
            (record { window_turns = none })
            persona
            session
            recalled
            none
            facts).messages
          (assemble {V = V} a persona session recalled none facts).messages
      × ((assemble {V = V} a persona session recalled none facts).system
          ≡ (assemble {V = V}
              (record { window_turns = none })
              persona
              session
              recalled
              none
              facts).system)
unfolding make_assembler assemble
assemble-IsWindow V show (pos zero) a persona session recalled facts e = cc
assemble-IsWindow V show (pos (suc m)) a persona session recalled facts e =
    let made = ok-injective e in
    rw (sym made) (m, refl, last_turns-IsWindow (suc m) session.turns, refl)
assemble-IsWindow V show (negsuc m) a persona session recalled facts e = cc
