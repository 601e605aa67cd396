-- ===== src/Guardian/RateLimit/Spec.antt =====
-- The limiter of one key, without a map, and how the buckets of a map relate to it.
use openpalm.Base.{
  ℕ, ◌+◌, ◌-◌, ◌≤◌, ◌≡◌, Bool, true, false, not, Option, none, some, Text, text_eq, text_beq_iff,
  length, arith, ltb, leb, if◌then◌else◌, Option-cases, get, get-set, get-retain, get-retain-none,
  get-retain_dropped, IsUnique, evict_oldest_within, set-IsUnique, retain-IsUnique,
  evict_oldest-IsUnique, retain, length-keep_le, inl, inr, ◌==◌,
}
use openpalm.Guardian.RateLimit.{
  Bucket, Buckets, prune_rate_limit_buckets, admit, allow, max_buckets, max_window,
}

abbrev pub fresh : ℕ → Bucket
fresh now = record { count = 1; start = now }

-- The bucket of one key after a request, and the answer.
abbrev pub admit_one : ℕ → ℕ → ℕ → Option Bucket → Option Bucket × Bool
admit_one now limit window_ms none = (some (fresh now), true)
admit_one now limit window_ms (some b) =
    if ltb window_ms (now - b.start)
    then (some (fresh now), true)
    else if leb limit b.count
    then (some b, false)
    else (some (record { count = b.count + 1; start = b.start }), true)

module _ (now : ℕ) (key : Text) (limit window_ms : ℕ) (m : Buckets) where
  pub admit_answer :
      (admit now key limit window_ms m).1 ≡ (admit_one now limit window_ms (get key m)).1
  unfolding admit
  admit_answer = elim (Option-cases (get key m)) [
    | inl e ↦ rw (e, admit)
    | inr (b, e) ↦ rw (e, admit) (ground arith)
  ]

  pub get-admit :
      (j : Text)
      → get j (admit now key limit window_ms m).0
        ≡ (if key == j then (admit_one now limit window_ms (get key m)).0 else get j m)
  unfolding admit
  get-admit j = elim (Option-cases (get key m)) [
    | inl e ↦ rw (e, admit) (get-set key j (fresh now) m)
    | inr (b, e) ↦
        rw (e, admit)
          (ground (
            arith,
            text_beq_iff key j,
            get-set key j (fresh now) m,
            get-set key j (record { count = b.count + 1; start = b.start }) m,
          ))
  ]

  pub admit-IsUnique : IsUnique m → IsUnique (admit now key limit window_ms m).0
  unfolding admit
  admit-IsUnique u = elim (Option-cases (get key m)) [
    | inl e ↦ rw (e, admit) (set-IsUnique key (fresh now) m u)
    | inr (b, e) ↦ λ j.
        rw (e, admit)
          (ground (
            arith,
            u j,
            set-IsUnique key (fresh now) m u j,
            set-IsUnique key (record { count = b.count + 1; start = b.start }) m u j,
          ))
  ]

pub prune-IsUnique :
    (now : ℕ) (m : Buckets) → IsUnique m → IsUnique (prune_rate_limit_buckets now m)
unfolding prune_rate_limit_buckets
prune-IsUnique now m u =
    evict_oldest-IsUnique (λ b. b.start) max_buckets _
      (retain-IsUnique (λ b. not (ltb max_window (now - b.start))) m u)

-- The bucket of one key after the pruning timer, where the hard cap is not exceeded.
abbrev pub prune_one : ℕ → Option Bucket → Option Bucket
prune_one now none = none
prune_one now (some b) = if ltb max_window (now - b.start) then none else some b

pub get-prune :
    (now : ℕ) (m : Buckets) (j : Text)
    → IsUnique m
    → length m ≤ max_buckets
    → get j (prune_rate_limit_buckets now m) ≡ prune_one now (get j m)
unfolding prune_rate_limit_buckets
get-prune now m j u h =
    rw (evict_oldest_within (λ (b : Bucket). b.start) max_buckets (retain lives m) small)
      (elim (Option-cases (get j m)) [
        | inl e ↦ rw e (get-retain-none lives j m e)
        | inr (b, e) ↦
            rw e (ground (arith, get-retain lives j b m e, get-retain_dropped lives j b m (u j) e))
      ])
  where
    lives : Bucket → Bool
    lives b = not (ltb max_window (now - b.start))

    small : length (retain lives m) ≤ max_buckets
    small = omega (arith, h, length-keep_le (λ (en : Text × Bucket). lives en.1) m)

-- Up to the cap a request does not prune.
pub allow-admit :
    (now : ℕ) (key : Text) (limit window_ms : ℕ) (m : Buckets)
    → length m ≤ max_buckets
    → allow now key limit window_ms m ≡ admit now key limit window_ms m
unfolding allow
allow-admit now key limit window_ms m h = ground arith
