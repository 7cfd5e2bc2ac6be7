-- ===== src/Channel/Seen.antt =====
-- `SeenIdCache`: the ordered map is a list with the oldest entry first; times are whole ticks of the
-- monotonic clock.
use agent_keep.Base.{
  ℕ, ◌+◌, String, Bool, true, false, List, [], ◌∷◌, ◌++◌, Result, ok, err, length, ltb, leb,
  if◌then◌else◌,
}
use agent_keep.Base.Dict
use agent_keep.Base.Dict.{Dict}

pub record SeenIdCache : Type 0 where
  pub max_size : ℕ
  pub ttl : ℕ
  pub seen : Dict ℕ

-- `SeenIdCache.__init__`
unfoldable pub make_cache : ℕ → ℕ → Result String SeenIdCache
make_cache max_size ttl =
    if ltb max_size 1
    then err "SeenIdCache max_size must be >= 1"
    else ok (record { max_size = max_size; ttl = ttl; seen = [] })

-- `now - stamp >= ttl`
abbrev pub is_expired : ℕ → ℕ → ℕ → Bool
is_expired ttl now stamp = leb (stamp + ttl) now

-- The loop of `_evict_expired`.
unfoldable pub evict_expired : ℕ → ℕ → Dict ℕ → Dict ℕ
evict_expired ttl now [] = []
evict_expired ttl now ((key, stamp) ∷ seen) =
    let rest = evict_expired ttl now seen in
    if is_expired ttl now stamp then rest else (key, stamp) ∷ seen

-- The loop that enforces the cap.
unfoldable pub evict_oldest : ℕ → Dict ℕ → Dict ℕ
evict_oldest max_size [] = []
evict_oldest max_size (entry ∷ seen) =
    let rest = evict_oldest max_size seen in
    if ltb max_size (length (entry ∷ seen)) then rest else entry ∷ seen

-- A key that is not there is inserted at the end.
abbrev pub first_sight : SeenIdCache → ℕ → String → Dict ℕ → SeenIdCache × Bool
first_sight c now key seen =
    (record c { seen = evict_oldest c.max_size (seen ++ (key, now) ∷ []) }, false)

abbrev pub sighted : SeenIdCache → ℕ → String → Dict ℕ → SeenIdCache × Bool
sighted c now key seen =
    if Dict.has seen key then (record c { seen = seen }, true) else first_sight c now key seen

unfoldable pub seen_then_record : SeenIdCache → ℕ → String → SeenIdCache × Bool
seen_then_record c now key = sighted c now key (evict_expired c.ttl now c.seen)

-- A history of deliveries: the time and the id of each.
unfoldable pub deliver : SeenIdCache → List (ℕ × String) → SeenIdCache
deliver c [] = c
deliver c ((now, key) ∷ ds) = deliver (seen_then_record c now key).0 ds
