-- ===== src/Channel/Window.antt =====
-- What `SeenIdCache` of channel_lifecycle.py holds, and which redeliveries it recognizes.
use mathlib.Core.List.{append_assoc}
use agent_keep.Base.{
  ℕ, suc, ◌+◌, ◌≤◌, ◌<◌, String, Bool, true, false, ◌≡◌, refl, sym, ap, ◌∙◌, List, [], ◌∷◌, ◌++◌,
  ok, arith, length, length-append, ltb, eq_refl, All, Bool-cases, if_elim, ok-injective, inl, inr,
}
use agent_keep.Base.Dict
use agent_keep.Base.Dict.{Dict}
use agent_keep.Channel.Seen.{
  SeenIdCache, make_cache, is_expired, evict_expired, evict_oldest, first_sight, seen_then_record,
  deliver,
}

evict_oldest-length : (n : ℕ) (seen : Dict ℕ) → length (evict_oldest n seen) ≤ n
unfolding evict_oldest
evict_oldest-length n [] = omega arith
evict_oldest-length n (e ∷ seen) =
    if_elim (λ d. length d ≤ n) (ltb n (length (e ∷ seen))) (evict_oldest n seen) (e ∷ seen)
      (λ _. evict_oldest-length n seen) (λ small. ground arith)

evict_expired-length :
    (ttl now : ℕ) (seen : Dict ℕ) → length (evict_expired ttl now seen) ≤ length seen
unfolding evict_expired
evict_expired-length ttl now [] = omega arith
evict_expired-length ttl now ((key, stamp) ∷ seen) =
    if_elim (λ d. length d ≤ suc (length seen)) (is_expired ttl now stamp)
      (evict_expired ttl now seen) ((key, stamp) ∷ seen)
      (λ _. omega (arith, evict_expired-length ttl now seen)) (λ _. omega arith)

-- What a delivery makes of the set.
delivery_cases {κ} :
    (P : SeenIdCache × Bool → Type κ) (c : SeenIdCache) (now : ℕ) (key : String)
    → (Dict.has (evict_expired c.ttl now c.seen) key ≡ true
        → P (record c { seen = evict_expired c.ttl now c.seen }, true))
    → (Dict.has (evict_expired c.ttl now c.seen) key ≡ false
        → P (first_sight c now key (evict_expired c.ttl now c.seen)))
    → P (seen_then_record c now key)
unfolding seen_then_record
delivery_cases P c now key again first =
    if_elim P (Dict.has (evict_expired c.ttl now c.seen) key) _ _ again first

-- The settings stay, and the cap holds.
abbrev IsWithin : SeenIdCache → SeenIdCache → Type 0
IsWithin c d = (d.max_size ≡ c.max_size) × (d.ttl ≡ c.ttl) × (length d.seen ≤ c.max_size)

delivery-IsWithin :
    (c : SeenIdCache) (now : ℕ) (key : String)
    → length c.seen ≤ c.max_size
    → IsWithin c (seen_then_record c now key).0
delivery-IsWithin c now key h =
    delivery_cases (λ p. IsWithin c p.0) c now key
      (λ _. (refl, refl, omega (arith, evict_expired-length c.ttl now c.seen)))
      (λ _. (refl, refl, evict_oldest-length c.max_size _))

-- However many ids are delivered, whenever and in whatever order, the set never holds more than
-- `max_size` of them.
pub deliver-bounded :
    (max_size ttl : ℕ) (c : SeenIdCache) (ds : List (ℕ × String))
    → make_cache max_size ttl ≡ ok c
    → length (deliver c ds).seen ≤ max_size
unfolding make_cache deliver
deliver-bounded max_size ttl c ds e = elim (Bool-cases (ltb max_size 1)) [
  | inl zero_cap ↦ absurd (cc (rw zero_cap at e))
  | inr positive ↦
      let fresh = ok-injective (rw positive at e) in
      let (m, _, b) = go c ds (rw (sym fresh) (omega arith)) in
      let cap : c.max_size ≡ max_size = ap (λ (d : SeenIdCache). d.max_size) (sym fresh) in
      omega (arith, b, cap)
]
  where
    go :
        (c : SeenIdCache) (ds : List (ℕ × String))
        → length c.seen ≤ c.max_size
        → IsWithin c (deliver c ds)
    go c [] h = (refl, refl, h)
    go c ((now, key) ∷ ds) h =
        let (m, t, b) = delivery-IsWithin c now key h in
        let (n, u, d) = go (seen_then_record c now key).0 ds (rw m b) in
        (n ∙ m, u ∙ t, omega (arith, d, m))

-- The key stands in the set since `stamp`, with at most `n` younger entries.
abbrev Remembers : String → ℕ → ℕ → Dict ℕ → Type 0
Remembers key stamp n seen =
    (before after : Dict ℕ) × (seen ≡ before ++ (key, stamp) ∷ after) × (length after ≤ n)

has_middle :
    (before after : Dict ℕ) (key : String) (stamp : ℕ)
    → Dict.has (before ++ (key, stamp) ∷ after) key ≡ true
unfolding Dict.get
has_middle [] after key stamp = ground (arith, eq_refl key)
has_middle ((k, t) ∷ before) after key stamp = ground (arith, has_middle before after key stamp)

-- Eviction by age stops at an entry that is still inside the window.
evict_expired-Remembers :
    (ttl now : ℕ) (before after : Dict ℕ) (key : String) (stamp n : ℕ)
    → now < stamp + ttl
    → length after ≤ n
    → Remembers key stamp n (evict_expired ttl now (before ++ (key, stamp) ∷ after))
unfolding evict_expired
evict_expired-Remembers ttl now [] after key stamp n young h =
    let kept : is_expired ttl now stamp ≡ false = ground arith in rw kept ([], after, refl, h)
evict_expired-Remembers ttl now ((k, t) ∷ before) after key stamp n young h =
    if_elim (Remembers key stamp n) (is_expired ttl now t)
      (evict_expired ttl now (before ++ (key, stamp) ∷ after))
      ((k, t) ∷ before ++ (key, stamp) ∷ after)
      (λ _. evict_expired-Remembers ttl now before after key stamp n young h)
      (λ _. ((k, t) ∷ before, after, refl, h))

-- Eviction by size does not reach an entry with fewer than `cap` younger ones.
evict_oldest-Remembers :
    (most : ℕ) (before after : Dict ℕ) (key : String) (stamp n : ℕ)
    → suc n ≤ most
    → length after ≤ n
    → Remembers key stamp n (evict_oldest most (before ++ (key, stamp) ∷ after))
unfolding evict_oldest
evict_oldest-Remembers most [] after key stamp n room h =
    let kept : ltb most (length ((key, stamp) ∷ after)) ≡ false = ground arith in
    rw kept ([], after, refl, h)
evict_oldest-Remembers most (e ∷ before) after key stamp n room h =
    if_elim (Remembers key stamp n) (ltb most (length (e ∷ before ++ (key, stamp) ∷ after)))
      (evict_oldest most (before ++ (key, stamp) ∷ after)) (e ∷ before ++ (key, stamp) ∷ after)
      (λ _. evict_oldest-Remembers most before after key stamp n room h)
      (λ _. (e ∷ before, after, refl, h))

-- One more delivery inside the window.
delivery-Remembers :
    (c : SeenIdCache) (now : ℕ) (other key : String) (stamp n : ℕ)
    → now < stamp + c.ttl
    → suc (suc n) ≤ c.max_size
    → Remembers key stamp n c.seen
    → Remembers key stamp (suc n) (seen_then_record c now other).0.seen
delivery-Remembers c now other key stamp n young room (before, after, e, h) =
    let (b, a, f, k) = evict_expired-Remembers c.ttl now before after key stamp n young h in
    let kept = ap (evict_expired c.ttl now) e ∙ f in
    delivery_cases (λ p. Remembers key stamp (suc n) p.0.seen) c now other
      (λ _. (b, a, kept, omega (arith, k)))
      (λ _.
        rw (kept, append_assoc b ((key, stamp) ∷ a) ((other, now) ∷ []))
          (evict_oldest-Remembers c.max_size b (a ++ (other, now) ∷ []) key stamp (suc n) room
            (omega (arith, k, length-append a ((other, now) ∷ [])))))

delivery_settings :
    (c : SeenIdCache) (now : ℕ) (key : String)
    → let d = (seen_then_record c now key).0 in (d.max_size ≡ c.max_size) × (d.ttl ≡ c.ttl)
delivery_settings c now key =
    delivery_cases (λ p. (p.0.max_size ≡ c.max_size) × (p.0.ttl ≡ c.ttl)) c now key
      (λ _. (refl, refl)) (λ _. (refl, refl))

-- A delivery of a key that the set holds inside the window is a duplicate.
Remembers-duplicate :
    (c : SeenIdCache) (later : ℕ) (key : String) (stamp n : ℕ)
    → later < stamp + c.ttl
    → Remembers key stamp n c.seen
    → (seen_then_record c later key).1 ≡ true
Remembers-duplicate c later key stamp n young (before, after, e, h) =
    let (b, a, f, _) = evict_expired-Remembers c.ttl later before after key stamp n young h in
    let kept = ap (evict_expired c.ttl later) e ∙ f in
    let held = ap (λ d. Dict.has d key) kept ∙ has_middle b a key stamp in
    delivery_cases (λ p. p.1 ≡ true) c later key (λ _. refl) (λ gone. absurd (cc (held, gone)))

-- At most one turn per delivery: once an id was let through as new, it is recognized as a duplicate at
-- every later time inside the window, provided that fewer other deliveries than `max_size` came in
-- between, all of them inside the window too.
pub redelivery_dropped :
    (c : SeenIdCache) (now later : ℕ) (key : String) (ds : List (ℕ × String))
    → (seen_then_record c now key).1 ≡ false
    → All (λ d. d.0 < now + c.ttl) ds
    → later < now + c.ttl
    → length ds < c.max_size
    → (seen_then_record (deliver (seen_then_record c now key).0 ds) later key).1 ≡ true
unfolding deliver
redelivery_dropped c now later key ds new young soon room =
    let (m, t) = delivery_settings c now key in
    go (seen_then_record c now key).0 ds 0 m t young (omega (arith, room)) (
      delivery_cases (λ p. p.1 ≡ false → Remembers key now 0 p.0.seen) c now key
        (λ _ e. absurd (cc e))
        (λ _ e.
          evict_oldest-Remembers c.max_size (evict_expired c.ttl now c.seen) [] key now 0
            (omega (arith, room)) (omega arith))
        new)
  where
    go :
        (d : SeenIdCache) (ds : List (ℕ × String)) (n : ℕ)
        → d.max_size ≡ c.max_size
        → d.ttl ≡ c.ttl
        → All (λ e. e.0 < now + c.ttl) ds
        → n + length ds < c.max_size
        → Remembers key now n d.seen
        → (seen_then_record (deliver d ds) later key).1 ≡ true
    go d [] n m t young room r = Remembers-duplicate d later key now n (omega (arith, soon, t)) r
    go d ((time, other) ∷ ds) n m t young room r =
        let (m', t') = delivery_settings d time other in
        go (seen_then_record d time other).0 ds (suc n) (m' ∙ m) (t' ∙ t) young.1
          (omega (arith, room))
          (delivery-Remembers d time other key now n (omega (arith, young.0, t))
            (omega (arith, room, m)) r)
