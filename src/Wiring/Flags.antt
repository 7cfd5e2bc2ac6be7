-- ===== src/Wiring/Flags.antt =====
-- The tests of `select_components`, said as statements of the spec.
use agent_keep.Base.{
  String, Bool, true, false, not, ◌||◌, Option, none, some, List, [], ◌∷◌, ◌++◌, ◌≡◌, ◌≢◌, ◌↔◌, ◌⊎◌,
  inl, inr, refl, sym, is_empty, In, In-append, eq_of_some, Bool-cases,
}
use mathlib.Core.Path.{subst}
use agent_keep.Spec.Intake.{Activation, message_trigger, schedule_trigger, event_trigger, Triggers}
use agent_keep.Spec.State.{
  History, sliding_window, summarization, retrieval, RetrievalHistory, MemoryStructure, facts,
  vectors, Memory,
}
use agent_keep.Spec.Tools.{McpTransport, stdio, http, local, McpServer}
use agent_keep.Spec.Providers.{Models}
use agent_keep.Spec.Sections.{SpecSections}
use agent_keep.Spec.Validate.{is_some}
use agent_keep.Wiring.Guards.{is_local}
use agent_keep.Wiring.Select.{
  events_of, event_activations, schedules_of, schedule_activations, if_selected, has_retrieval,
  structure_component, memory_component, any_local, any_remote, needs_router,
}
use agent_keep.Wiring.Declared.{Remembers, Activates, IsEvent, IsSchedule}

pub In-either :
    {P Q : Type 0} (c : String) (xs ys : List String)
    → (In c xs ↔ P)
    → (In c ys ↔ Q)
    → In c (xs ++ ys) ↔ (P ⊎ Q)
In-either c xs ys p q =
    let a = In-append c xs ys in
    (
      λ h. elim (a.0 h) [ inl x ↦ inl (p.0 x) | inr y ↦ inr (q.0 y) ],
      λ o. elim o [ inl x ↦ a.1 (inl (p.1 x)) | inr y ↦ a.1 (inr (q.1 y)) ],
    )

-- A component behind a test.
pub flag_iff :
    {P : Type 0} (b : Bool) (name c : String)
    → ((b ≡ true) ↔ P)
    → In c (if_selected b name) ↔ (P × (name ≡ c))
flag_iff true name c p = (λ h. elim h [ inl e ↦ (p.0 refl, e) | inr x ↦ absurd x ], λ (x, e). inl e)
flag_iff false name c p = (λ h. absurd h, λ (x, e). absurd (cc (p.1 x)))

pub has_retrieval_iff :
    (o : Option History)
    → (has_retrieval o ≡ true) ↔ ((h : RetrievalHistory) × (o ≡ some (retrieval h)))
has_retrieval_iff none = (λ h. absurd (cc h), λ (h, e). absurd (cc e))
has_retrieval_iff (some (sliding_window h)) =
    (λ e. absurd (cc e), λ (k, e). absurd (cc (eq_of_some e)))
has_retrieval_iff (some (summarization h)) =
    (λ e. absurd (cc e), λ (k, e). absurd (cc (eq_of_some e)))
has_retrieval_iff (some (retrieval h)) = (λ e. (h, refl), λ e. refl)
has_retrieval_iff (some (History.layered h)) =
    (λ e. absurd (cc e), λ (k, e). absurd (cc (eq_of_some e)))

pub structure_component_iff :
    (m : MemoryStructure) (c : String) → (structure_component m ≡ c) ↔ Remembers m c
structure_component_iff facts c = (λ e. e, λ e. e)
structure_component_iff (vectors m) c = (λ e. e, λ e. e)
structure_component_iff (MemoryStructure.layered m) c = (λ e. e, λ e. e)

pub memory_component_iff :
    (o : Option Memory) (c : String)
    → In c (memory_component o) ↔ ((m : Memory) × (o ≡ some m) × Remembers m.structure c)
memory_component_iff none c = (λ h. absurd h, λ (m, e, r). absurd (cc e))
memory_component_iff (some m) c =
    let r = structure_component_iff m.structure c in
    (
      λ h. elim h [ inl e ↦ (m, refl, r.0 e) | inr x ↦ absurd x ],
      λ (k, e, x).
          inl (r.1 (subst (λ (n : Memory). Remembers n.structure c) (sym (eq_of_some e)) x)),
    )

pub needs_router_iff :
    {F : Type 0} (m : Models F) → (needs_router m ≡ true) ↔ ((m.tiers ≢ []) ⊎ (m.budgets ≢ none))
needs_router_iff m = by_parts m.tiers m.budgets
  where
    by_parts :
        {A B : Type 0} (ts : List A) (o : Option B)
        → ((not (is_empty ts) || is_some o) ≡ true) ↔ ((ts ≢ []) ⊎ (o ≢ none))
    by_parts [] none =
        (λ h. absurd (cc h), λ o. elim o [ inl n ↦ absurd (n refl) | inr n ↦ absurd (n refl) ])
    by_parts [] (some b) = (λ h. inr (λ q. cc), λ o. refl)
    by_parts (t ∷ ts) o = (λ h. inl (λ q. cc), λ o. refl)

pub events_of_iff :
    (xs : List Activation)
    → (not (is_empty (events_of xs)) ≡ true) ↔ ((a : Activation) × In a xs × IsEvent a)
unfolding events_of
events_of_iff [] = (λ h. absurd (cc h), λ (a, i, e). absurd i)
events_of_iff (message_trigger ∷ xs) =
    let ih = events_of_iff xs in
    (
      λ h. let (a, i, e) = ih.0 h in (a, inr i, e),
      λ (a, i, e). elim i [ inl q ↦ absurd (subst IsEvent (sym q) e) | inr r ↦ ih.1 (a, r, e) ],
    )
events_of_iff (schedule_trigger t ∷ xs) =
    let ih = events_of_iff xs in
    (
      λ h. let (a, i, e) = ih.0 h in (a, inr i, e),
      λ (a, i, e). elim i [ inl q ↦ absurd (subst IsEvent (sym q) e) | inr r ↦ ih.1 (a, r, e) ],
    )
events_of_iff (event_trigger t ∷ xs) = (λ h. (event_trigger t, inl refl, tt), λ x. refl)

pub schedules_of_iff :
    (xs : List Activation)
    → (not (is_empty (schedules_of xs)) ≡ true) ↔ ((a : Activation) × In a xs × IsSchedule a)
unfolding schedules_of
schedules_of_iff [] = (λ h. absurd (cc h), λ (a, i, e). absurd i)
schedules_of_iff (message_trigger ∷ xs) =
    let ih = schedules_of_iff xs in
    (
      λ h. let (a, i, e) = ih.0 h in (a, inr i, e),
      λ (a, i, e). elim i [ inl q ↦ absurd (subst IsSchedule (sym q) e) | inr r ↦ ih.1 (a, r, e) ],
    )
schedules_of_iff (event_trigger t ∷ xs) =
    let ih = schedules_of_iff xs in
    (
      λ h. let (a, i, e) = ih.0 h in (a, inr i, e),
      λ (a, i, e). elim i [ inl q ↦ absurd (subst IsSchedule (sym q) e) | inr r ↦ ih.1 (a, r, e) ],
    )
schedules_of_iff (schedule_trigger t ∷ xs) = (λ h. (schedule_trigger t, inl refl, tt), λ x. refl)

pub event_activations_iff :
    {F : Type 0} (s : SpecSections F)
    → (not (is_empty (event_activations s.triggers)) ≡ true) ↔ Activates s IsEvent
event_activations_iff s = by_triggers s.triggers
  where
    by_triggers :
        (o : Option Triggers)
        → (not (is_empty (event_activations o)) ≡ true)
          ↔ ((ts : Triggers) × (o ≡ some ts) × (a : Activation) × In a ts.activations × IsEvent a)
    by_triggers none = (λ h. absurd (cc h), λ (ts, e, a, i, x). absurd (cc e))
    by_triggers (some t) =
        let k = events_of_iff t.activations in
        (
          λ h. let (a, i, x) = k.0 h in (t, refl, a, i, x),
          λ (ts, e, a, i, x).
              k.1 (a, subst (λ (u : Triggers). In a u.activations) (sym (eq_of_some e)) i, x),
        )

pub schedule_activations_iff :
    {F : Type 0} (s : SpecSections F)
    → (not (is_empty (schedule_activations s.triggers)) ≡ true) ↔ Activates s IsSchedule
schedule_activations_iff s = by_triggers s.triggers
  where
    by_triggers :
        (o : Option Triggers)
        → (not (is_empty (schedule_activations o)) ≡ true) ↔ (
            (ts : Triggers) × (o ≡ some ts) × (a : Activation) × In a ts.activations × IsSchedule a)
    by_triggers none = (λ h. absurd (cc h), λ (ts, e, a, i, x). absurd (cc e))
    by_triggers (some t) =
        let k = schedules_of_iff t.activations in
        (
          λ h. let (a, i, x) = k.0 h in (t, refl, a, i, x),
          λ (ts, e, a, i, x).
              k.1 (a, subst (λ (u : Triggers). In a u.activations) (sym (eq_of_some e)) i, x),
        )

-- A test of some server's transport.
pub any_iff :
    (test : McpTransport → Bool) (P : McpTransport → Type 0) (any : List McpServer → Bool)
    → any [] ≡ false
    → ((s : McpServer) (ss : List McpServer) → any (s ∷ ss) ≡ (test s.transport || any ss))
    → ((t : McpTransport) → (test t ≡ true) ↔ P t)
    → (ss : List McpServer) → (any ss ≡ true) ↔ ((s : McpServer) × In s ss × P s.transport)
any_iff test P any n c p [] = (λ h. absurd (cc (n, h)), λ (s, i, x). absurd i)
any_iff test P any n c p (s ∷ ss) =
    let ih = any_iff test P any n c p ss in
    elim (Bool-cases (test s.transport)) [
      | inl y ↦ rw (c s ss, y) (λ h. (s, inl refl, (p s.transport).0 y), λ x. refl)
      | inr f ↦
          rw (c s ss, f)
            (
              λ h. let (u, i, x) = ih.0 h in (u, inr i, x),
              λ (u, i, x). elim i [
                | inl q ↦
                    absurd (
                      cc
                        (f, (p s.transport).1 (subst (λ (r : McpServer). P r.transport) (sym q) x)))
                | inr r ↦ ih.1 (u, r, x)
              ],
            )
    ]

pub local_iff : (t : McpTransport) → (is_local t ≡ true) ↔ (t ≡ local)
local_iff (stdio t) = (λ h. absurd (cc h), λ h. absurd (cc h))
local_iff (http t) = (λ h. absurd (cc h), λ h. absurd (cc h))
local_iff local = (λ h. refl, λ h. refl)

pub remote_iff : (t : McpTransport) → (not (is_local t) ≡ true) ↔ (t ≢ local)
remote_iff (stdio t) = (λ h q. cc, λ h. refl)
remote_iff (http t) = (λ h q. cc, λ h. refl)
remote_iff local = (λ h. cc, λ n. absurd (n refl))

pub any_local_iff :
    (ss : List McpServer)
    → (any_local ss ≡ true) ↔ ((s : McpServer) × In s ss × (s.transport ≡ local))
unfolding any_local
any_local_iff ss = any_iff is_local (λ t. t ≡ local) any_local refl (λ s r. refl) local_iff ss

pub any_remote_iff :
    (ss : List McpServer)
    → (any_remote ss ≡ true) ↔ ((s : McpServer) × In s ss × (s.transport ≢ local))
unfolding any_remote
any_remote_iff ss =
    any_iff (λ t. not (is_local t)) (λ t. t ≢ local) any_remote refl (λ s r. refl) remote_iff ss
