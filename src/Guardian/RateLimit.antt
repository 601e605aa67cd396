-- ===== src/Guardian/RateLimit.antt =====
-- core/guardian/src/rate-limit.ts: fixed-window rate limiting. `Date.now()` is an argument.
pub mod Spec
pub mod Cap
pub mod Window
pub mod Tests
use openpalm.Base.{
  ℕ, ◌+◌, ◌-◌, Bool, true, false, ◌&&◌, not, List, [], ◌∷◌, none, some, Text, text_eq, codes,
  starts_with, Map, get, set, retain, evict_oldest, ltb, leb, if◌then◌else◌, length, count_by,
}

abbrev pub user_rate_limit : ℕ
user_rate_limit = 120

abbrev pub user_rate_window_ms : ℕ
user_rate_window_ms = 60_000

abbrev pub channel_rate_limit : ℕ
channel_rate_limit = 200

abbrev pub channel_rate_window_ms : ℕ
channel_rate_window_ms = 60_000

abbrev pub max_buckets : ℕ
max_buckets = 10_000

pub record Bucket : Type 0 where
  pub count : ℕ
  pub start : ℕ

abbrev pub Buckets : Type 0
Buckets = Map Text Bucket

-- `Math.max(USER_RATE_WINDOW_MS, CHANNEL_RATE_WINDOW_MS)`
abbrev pub max_window : ℕ
max_window =
    if leb user_rate_window_ms channel_rate_window_ms
    then channel_rate_window_ms
    else user_rate_window_ms

unfoldable pub prune_rate_limit_buckets : ℕ → Buckets → Buckets
prune_rate_limit_buckets now buckets =
    evict_oldest (λ b. b.start) max_buckets
      (retain (λ b. not (ltb max_window (now - b.start))) buckets)

-- The part of `allow` behind the eviction.
unfoldable pub admit : ℕ → Text → ℕ → ℕ → Buckets → Buckets × Bool
admit now key limit window_ms buckets = elim (get key buckets) [
  | none ↦ (set key (record { count = 1; start = now }) buckets, true)
  | some b ↦
      if ltb window_ms (now - b.start)
      then (set key (record { count = 1; start = now }) buckets, true)
      else if leb limit b.count
      then (buckets, false)
      else (set key (record { count = b.count + 1; start = b.start }) buckets, true)
]

unfoldable pub allow : ℕ → Text → ℕ → ℕ → Buckets → Buckets × Bool
unfolding admit
allow now key limit window_ms buckets =
    admit now key limit window_ms
      (if ltb max_buckets (length buckets) then prune_rate_limit_buckets now buckets else buckets)

pub record ActiveLimiters : Type 0 where
  pub active_user_limiters : ℕ
  pub active_channel_limiters : ℕ

abbrev pub is_channel_key : Text → Bool
is_channel_key key = starts_with key (codes "ch:")

-- Whether a bucket counts as active, by the window of its kind.
abbrev pub is_active : ℕ → Text × Bucket → Bool
is_active now (key, b) = not (
    ltb (if is_channel_key key then channel_rate_window_ms else user_rate_window_ms)
      (now - b.start))

unfoldable pub active_rate_limiters : ℕ → Buckets → ActiveLimiters
active_rate_limiters now buckets = record {
  active_user_limiters = count_by (λ en. is_active now en && not (is_channel_key en.0)) buckets;
  active_channel_limiters = count_by (λ en. is_active now en && is_channel_key en.0) buckets;
}

-- What happens to the buckets over time: a request, or the pruning timer.
pub data Event : Type 0 where
  request : ℕ → Text → ℕ → ℕ → Event
  tick : ℕ → Event

unfoldable pub step : Event → Buckets → Buckets × Bool
step (request now key limit window_ms) buckets = allow now key limit window_ms buckets
step (tick now) buckets = (prune_rate_limit_buckets now buckets, false)
