-- ===== src/Guardian/Replay/Cap.antt =====
-- The size of the nonce cache, and what an accepted message looks like.
use openpalm.Base.{
  ℕ, ◌+◌, ◌≤◌, ◌≡◌, ◌≢◌, ◌↔◌, none, true, [], ◌∷◌, Text, text_eq, length, arith,
  length-evict_oldest, get, set,
}
use openpalm.Guardian.Replay.{
  Seen, Event, check, tick, step, check_nonce, prune_nonce_cache, clock_skew, prune_threshold,
}

length-prune :
    (max_size now : ℕ) (seen : Seen) → length (prune_nonce_cache max_size now seen) ≤ max_size
unfolding prune_nonce_cache
length-prune max_size now seen = length-evict_oldest (λ v. v) max_size _

-- With a cap of at least the pruning threshold, no event takes the cache beyond the cap.
pub length-step :
    (max_size : ℕ) (ev : Event) (seen : Seen)
    → prune_threshold ≤ max_size
    → length seen ≤ max_size
    → length (step max_size ev seen).0 ≤ max_size
unfolding step check_nonce
length-step max_size (check now nonce ts) seen h k =
    ground (arith, length-prune max_size now (set nonce ts seen))
length-step max_size (tick now) seen h k = length-prune max_size now seen

-- A message is accepted exactly when its nonce is not empty and not in the cache, and its
-- timestamp is within the clock skew of the present, in either direction.
pub check_nonce_iff :
    (max_size now : ℕ) (nonce : Text) (ts : ℕ) (seen : Seen)
    → ((check_nonce max_size now nonce ts seen).1 ≡ true)
      ↔ ((nonce ≢ []) × (get nonce seen ≡ none) × (now ≤ ts + clock_skew) × (ts ≤ now + clock_skew))
unfolding check_nonce
check_nonce_iff max_size now [] ts seen = ground arith
check_nonce_iff max_size now (c ∷ cs) ts seen = ground arith
