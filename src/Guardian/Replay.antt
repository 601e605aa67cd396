-- ===== src/Guardian/Replay.antt =====
-- core/guardian/src/replay.ts: replay detection. `Date.now()` is an argument, and so is `maxSize`,
-- which only a test overrides. Timestamps are natural numbers of milliseconds.
pub mod Cap
pub mod Once
pub mod Tests
use openpalm.Base.{
  ℕ, ◌+◌, ◌-◌, Bool, true, false, ◌||◌, not, Text, text_eq, Map, set, has, retain, evict_oldest,
  ltb, if◌then◌else◌, length, is_empty, List,
}

abbrev pub clock_skew : ℕ
clock_skew = 300_000

abbrev pub nonce_max_size : ℕ
nonce_max_size = 50_000

abbrev pub prune_threshold : ℕ
prune_threshold = 10_000

abbrev pub Seen : Type 0
Seen = Map Text ℕ

unfoldable pub prune_nonce_cache : ℕ → ℕ → Seen → Seen
prune_nonce_cache max_size now seen =
    evict_oldest (λ v. v) max_size (retain (λ v. not (ltb (v + clock_skew) now)) seen)

-- `Math.abs(Date.now() - ts) > CLOCK_SKEW`
abbrev pub is_skewed : ℕ → ℕ → Bool
is_skewed now ts = ltb clock_skew (now - ts + (ts - now))

unfoldable pub check_nonce : ℕ → ℕ → Text → ℕ → Seen → Seen × Bool
check_nonce max_size now nonce ts seen =
    if is_empty nonce
    then (seen, false)
    else if is_skewed now ts
    then (seen, false)
    else if has nonce seen
    then (seen, false)
    else let noted = set nonce ts seen in
      (
        if ltb prune_threshold (length noted) then prune_nonce_cache max_size now noted else noted,
        true,
      )

unfoldable pub nonce_cache_size : Seen → ℕ
nonce_cache_size seen = length seen

-- What happens to the cache over time: a message that reaches the check, or the pruning timer.
pub data Event : Type 0 where
  check : ℕ → Text → ℕ → Event
  tick : ℕ → Event

unfoldable pub step : ℕ → Event → Seen → Seen × Bool
step max_size (check now nonce ts) seen = check_nonce max_size now nonce ts seen
step max_size (tick now) seen = (prune_nonce_cache max_size now seen, false)
