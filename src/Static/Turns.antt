-- ===== src/Static/Turns.antt =====
-- What the scripted provider says over its calls.
use native.Mathlib.Nat.{mod-add-mod, mod-lt, mod-eq_of_lt, add-mod_right}
use agent_keep.Base.{
  ℕ, zero, suc, ◌+◌, ◌-◌, ◌%◌, ◌<◌, ◌≤◌, String, some, List, [], ◌∷◌, ◌≡◌, ◌⊎◌, inl, inr, refl, sym,
  ap, ◌∙◌, arith, length,
}
use agent_keep.Core.Model.{AssembledPrompt}
use agent_keep.Static.{Python, StaticProvider, entry_at, reply_to, complete}

entry_at-lt :
    (script : List String) (i : ℕ) (entry : String)
    → entry_at script i ≡ some entry
    → i < length script
unfolding entry_at
entry_at-lt [] i entry e = ground arith
entry_at-lt (s ∷ script) zero entry e = omega arith
entry_at-lt (s ∷ script) (suc i) entry e = omega (arith, entry_at-lt script i entry e)

-- Within n steps of any number comes one whose remainder is a given one.
reached : (n i r : ℕ) → i < n → r < n → (k : ℕ) × ((k < n) × ((r + k) % n ≡ i))
reached n i r h lt = elim (le_cases r i) [
  | inl le ↦ (i - r, (omega arith, ap (λ j. j % n) (the_sum r i le) ∙ mod-eq_of_lt h))
  | inr gt ↦ (
    i + n - r,
    (
      omega arith,
      ap (λ j. j % n) (the_sum r (i + n) (omega arith)) ∙ add-mod_right i n ∙ mod-eq_of_lt h,
    ),
  )
]
  where
    the_sum : (r j : ℕ) → r ≤ j → r + (j - r) ≡ j
    the_sum r j le = omega arith

    le_cases : (a b : ℕ) → (a ≤ b) ⊎ (b < a)
    le_cases a b = ground arith

reaches : (c n i : ℕ) → i < n → (k : ℕ) × ((k < n) × ((c + k) % n ≡ i))
reaches c n i h =
    let (k, (lt, e)) = reached n i (c % n) h (mod-lt c (omega arith)) in
    (k, (lt, sym (mod-add-mod c n k) ∙ e))

module _ {J : Type 0} (python : Python J) where
  -- The provider after some calls.
  unfoldable pub after : StaticProvider → List (AssembledPrompt J) → StaticProvider
  after p [] = p
  after p (prompt ∷ prompts) = after (complete python p prompt).0 prompts

  after-counts :
      (p : StaticProvider) (prompts : List (AssembledPrompt J))
      → after p prompts ≡ record { script = p.script; calls = p.calls + length prompts }
  unfolding after complete
  after-counts p [] = ground arith
  after-counts p (prompt ∷ prompts) =
      ground (arith, after-counts (complete python p prompt).0 prompts)

  -- From every state, every entry of the script is reached: there is a number of calls, less than the
  -- script has entries, after which the next call is answered from that entry.
  pub complete-Reaches :
      (p : StaticProvider) (i : ℕ) (entry : String)
      → entry_at p.script i ≡ some entry
      → (k : ℕ) × ((k < length p.script)
          × ((prompts : List (AssembledPrompt J)) (prompt : AssembledPrompt J)
              → length prompts ≡ k
              → (complete python (after p prompts) prompt).1
                ≡ reply_to python (p.calls + k) prompt (some entry)))
  unfolding complete
  complete-Reaches p i entry e =
      let (k, (lt, same)) = reaches p.calls (length p.script) i (entry_at-lt p.script i entry e) in
      (k, (lt, λ prompts prompt n. rw (after-counts p prompts, n, same, e) refl))
