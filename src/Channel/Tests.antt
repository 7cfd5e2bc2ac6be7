-- ===== src/Channel/Tests.antt =====
-- A small window, and the theorems about it at work.
use agent_keep.Base.{ℕ, String, true, ◌≡◌, refl, List, [], ◌∷◌, arith}
use agent_keep.Base.Dict
use agent_keep.Channel.Seen.{SeenIdCache, evict_expired, seen_then_record, deliver}
use agent_keep.Channel.Window.{redelivery_dropped}

abbrev cache : SeenIdCache
cache = record { max_size = 3; ttl = 300; seen = [] }

abbrev others : List (ℕ × String)
others = (10, "b") ∷ (20, "c") ∷ []

redelivery_example :
    (seen_then_record (deliver (seen_then_record cache 5 "a").0 others) 100 "a").1 ≡ true
unfolding seen_then_record evict_expired Dict.get
redelivery_example =
    redelivery_dropped cache 5 100 "a" others refl (omega arith, (omega arith, tt)) (omega arith)
      (omega arith)
