-- ===== src/Guardian/RateLimit/Cap.antt =====
-- The size of the bucket map, and the statistics.
use openpalm.Base.{
  ℕ, ◌+◌, ◌≤◌, ◌≡◌, refl, ◌∷◌, [], Text, text_eq, length, length-evict_oldest, length-set, count_by,
  arith, Option-cases, get, inl, inr,
}
use openpalm.Guardian.RateLimit.{
  Buckets, prune_rate_limit_buckets, admit, allow, max_buckets, active_rate_limiters, is_active,
}

length-prune : (now : ℕ) (m : Buckets) → length (prune_rate_limit_buckets now m) ≤ max_buckets
unfolding prune_rate_limit_buckets
length-prune now m = length-evict_oldest _ _ _

length-admit :
    (now : ℕ) (key : Text) (limit window_ms : ℕ) (m : Buckets)
    → length (admit now key limit window_ms m).0 ≤ length m + 1
unfolding admit
length-admit now key limit window_ms m = elim (Option-cases (get key m)) [
  | inl e ↦ rw (e, admit) (omega (arith, length-set key (record { count = 1; start = now }) m))
  | inr (b, e) ↦
      rw (e, admit)
        (ground (
          arith,
          length-set key (record { count = 1; start = now }) m,
          length-set key (record { count = b.count + 1; start = b.start }) m,
        ))
]

-- Whatever the map holds before, after a request it holds at most one bucket more than the cap.
pub length-allow :
    (now : ℕ) (key : Text) (limit window_ms : ℕ) (buckets : Buckets)
    → length (allow now key limit window_ms buckets).0 ≤ max_buckets + 1
unfolding allow
length-allow now key limit window_ms m = ground (
  arith,
  length-prune now m,
  length-admit now key limit window_ms m,
  length-admit now key limit window_ms (prune_rate_limit_buckets now m),
)

-- Each bucket in the map is counted as a user's, as a channel's, or as expired.
pub active_rate_limiters_split :
    (now : ℕ) (buckets : Buckets)
    → let s = active_rate_limiters now buckets in
      s.active_user_limiters + s.active_channel_limiters ≡ count_by (is_active now) buckets
unfolding active_rate_limiters
active_rate_limiters_split now [] = refl
active_rate_limiters_split now (en ∷ m) = ground (arith, active_rate_limiters_split now m)
