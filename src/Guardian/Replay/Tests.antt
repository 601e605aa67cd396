-- ===== src/Guardian/Replay/Tests.antt =====
-- Runs of the replay check at concrete inputs.
use openpalm.Base.{
  ◌≡◌, refl, [], ◌∷◌, List, Text, text_eq, codes, arith, get, set, evict_oldest, sort_by, delete,
}
use openpalm.Guardian.Replay.{
  Event, check, tick, step, check_nonce, prune_nonce_cache, nonce_max_size,
}
use openpalm.Guardian.Replay.Once.{WithinCap}

abbrev hello : Text
hello = codes "n-1"

abbrev later : List Event
later =
    check 1_000_500 hello 1_000_000
    ∷ check 1_000_600 (codes "n-2") 1_000_600
    ∷ tick 1_400_000
    ∷ check 1_400_001 hello 1_000_000
    ∷ []

later-WithinCap :
    WithinCap nonce_max_size later (check_nonce nonce_max_size 1_000_010 hello 1_000_000 []).0
unfolding WithinCap step check_nonce prune_nonce_cache set get evict_oldest
later-WithinCap = omega arith

-- The cap at work: with room for one nonce, the older of two is evicted.
evicted :
    (step 1 (tick 1_000_000) ((hello, 1_000_000) ∷ (codes "n-2", 999_000) ∷ [])).0
    ≡ (hello, 1_000_000) ∷ []
unfolding step prune_nonce_cache evict_oldest sort_by delete
evicted = refl
