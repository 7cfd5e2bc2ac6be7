-- ===== src/Core/Reason.antt =====
-- What `_trigger_for` of core.py says of why a turn runs.
use agent_keep.Base.{String, true, ◌≡◌, ◌⊎◌, inl, inr, refl, Option, none, some, List, [], ◌∷◌}
use agent_keep.Audit.{Trigger, exactly_one_source}
use agent_keep.Messages.{SenderKind, human, system, ContentBlock, InternalMessage}
use agent_keep.Core.Trigger.{
  non_empty, event_id, message_trigger, found_or, scan_events, trigger_by_kind, trigger_for,
}

-- Some block is an event, the first with that id, that names an activation.
abbrev pub Activates : List ContentBlock → String → Type 0
Activates [] i = ⊥
Activates (block ∷ blocks) i =
    (event_id block ≡ some i) ⊎ ((event_id block ≡ none) × Activates blocks i)

-- Why a message runs: the message itself, or, for a system only, the activation.
abbrev pub IsReason : InternalMessage → Trigger → Type 0
IsReason message t =
    (t ≡ message_trigger message)
    ⊎ ((message.sender.kind ≡ system)
        × (i : String) × (t.trigger_id ≡ some i)
        × Activates message.content i)

-- What the loop over the blocks comes to.
abbrev Scanned : InternalMessage → List ContentBlock → Trigger → Type 0
Scanned message blocks t =
    (exactly_one_source t ≡ true)
    × ((t ≡ message_trigger message)
        ⊎ ((i : String) × (t.trigger_id ≡ some i) × Activates blocks i))

found-Scanned :
    (message : InternalMessage) (block : ContentBlock) (blocks : List ContentBlock) (rest : Trigger)
    (o : Option String)
    → event_id block ≡ o
    → Scanned message blocks rest
    → Scanned message (block ∷ blocks) (found_or message o (non_empty block.source) rest)
unfolding exactly_one_source
found-Scanned message block blocks rest (some i) e r = (refl, inr (i, refl, inl e))
found-Scanned message block blocks rest none e (v, inl plain) = (v, inl plain)
found-Scanned message block blocks rest none e (v, inr (i, same, a)) =
    (v, inr (i, same, inr (e, a)))

scan_events-Scanned :
    (message : InternalMessage) (blocks : List ContentBlock)
    → Scanned message blocks (scan_events message blocks)
unfolding scan_events exactly_one_source
scan_events-Scanned message [] = (refl, inl refl)
scan_events-Scanned message (block ∷ blocks) =
    found-Scanned message block blocks (scan_events message blocks) (event_id block) refl
      (scan_events-Scanned message blocks)

-- Every message gets a valid trigger, which names one cause: the message itself, or, for a system's
-- message only, the activation of its first event block that names one.
trigger_for-IsReason :
    (message : InternalMessage)
    → (exactly_one_source (trigger_for message) ≡ true) × IsReason message (trigger_for message)
unfolding trigger_for exactly_one_source
trigger_for-IsReason message = by_kind message.sender.kind refl
  where
    by_kind :
        (k : SenderKind)
        → message.sender.kind ≡ k
        → (exactly_one_source (trigger_by_kind message k) ≡ true)
          × IsReason message (trigger_by_kind message k)
    by_kind human e = (refl, inl refl)
    by_kind system e =
        let (v, why) = scan_events-Scanned message message.content in
        (v, elim why [ inl plain ↦ inl plain | inr (i, same, a) ↦ inr (e, i, same, a) ])
