-- ===== src/Guardian/RateLimit/Window.antt =====
-- How many requests of one key are let through in a span of time, over any history of requests
-- and timer ticks that stays within the cap.
use openpalm.Base.{
  ℕ, ◌+◌, ◌-◌, ◌*◌, ◌≤◌, min, ◌≡◌, refl, Bool, false, ◌&&◌, List, [], ◌∷◌, Option, none, some, Text,
  text_eq, ◌==◌, length, arith, ltb, if◌then◌else◌, get, IsUnique, All, text_beq_iff,
}
use openpalm.Guardian.RateLimit.{
  Bucket, Buckets, Event, request, tick, step, max_buckets, max_window,
}
use openpalm.Guardian.RateLimit.Spec.{
  admit_one, prune_one, allow-admit, admit_answer, get-admit, admit-IsUnique, get-prune,
  prune-IsUnique,
}

-- The requests of a key, and those that are let through.
abbrev pub asks : Text → Event → Bool
asks k (request now key limit window_ms) = key == k
asks k (tick now) = false

abbrev pub tally : Bool → ℕ
tally b = if b then 1 else 0

unfoldable pub requests : Text → List Event → ℕ
requests k [] = 0
requests k (ev ∷ evs) = tally (asks k ev) + requests k evs

unfoldable pub let_through : Text → List Event → Buckets → ℕ
let_through k [] m = 0
let_through k (ev ∷ evs) m = tally (asks k ev && (step ev m).1) + let_through k evs (step ev m).0

-- The hard cap evicts nothing on the way.
unfoldable pub WithinCap : List Event → Buckets → Type 0
WithinCap [] m = Unit
WithinCap (ev ∷ evs) m = (length m ≤ max_buckets) × WithinCap evs (step ev m).0

-- The event falls into the span from `from` that is one window long, and a request of `k` has the
-- limit and the window of `k`.
abbrev pub Fits : Text → ℕ → ℕ → ℕ → Event → Type 0
Fits k limit window from (request now key l w) =
    (from ≤ now) × (now ≤ from + window) × (key ≡ k → (l ≡ limit) × (w ≡ window))
Fits k limit window from (tick now) = (from ≤ now) × (now ≤ from + window)

-- The bucket of one key after an event.
abbrev after_one : Text → Event → Option Bucket → Option Bucket
after_one k (request now key l w) b = if key == k then (admit_one now l w b).0 else b
after_one k (tick now) b = prune_one now b

abbrev answer_one : Event → Option Bucket → Bool
answer_one (request now key l w) b = (admit_one now l w b).1
answer_one (tick now) b = false

step-IsUnique :
    (ev : Event) (m : Buckets) → length m ≤ max_buckets → IsUnique m → IsUnique (step ev m).0
unfolding step
step-IsUnique (request now key l w) m h u =
    rw (allow-admit now key l w m h) (admit-IsUnique now key l w m u)
step-IsUnique (tick now) m h u = prune-IsUnique now m u

get-step :
    (k : Text) (ev : Event) (m : Buckets)
    → length m ≤ max_buckets
    → IsUnique m
    → get k (step ev m).0 ≡ after_one k ev (get k m)
unfolding step
get-step k (request now key l w) m h u =
    rw (allow-admit now key l w m h) (ground (arith, text_beq_iff key k, get-admit now key l w m k))
get-step k (tick now) m h u = get-prune now m k u h

step_answer :
    (k : Text) (ev : Event) (m : Buckets)
    → length m ≤ max_buckets
    → (asks k ev && (step ev m).1) ≡ (asks k ev && answer_one ev (get k m))
unfolding step
step_answer k (request now key l w) m h =
    rw (allow-admit now key l w m h)
      (ground (arith, text_beq_iff key k, admit_answer now key l w m))
step_answer k (tick now) m h = refl

-- What the bucket of a key may still let through in the span that begins at `from`.
abbrev budget : ℕ → ℕ → Option Bucket → ℕ
budget limit from none = limit
budget limit from (some b) = limit - b.count + (if ltb b.start from then limit else 0)

-- The key has no bucket, or one that began within the span and is not over the limit.
abbrev pub IsCurrent : ℕ → ℕ → Option Bucket → Type 0
IsCurrent limit from none = Unit
IsCurrent limit from (some b) = (from ≤ b.start) × (b.count ≤ limit)

-- What the limit leaves for such a key.
abbrev pub left : ℕ → Option Bucket → ℕ
left limit none = limit
left limit (some b) = limit - b.count

module _ (k : Text) (limit window from : ℕ) (some_limit : 1 ≤ limit)
    (short : window ≤ max_window) where
  budget_one :
      (ev : Event) (b : Option Bucket)
      → Fits k limit window from ev
      → tally (asks k ev && answer_one ev b) + budget limit from (after_one k ev b)
        ≤ budget limit from b
  budget_one (request now key l w) none f = ground (arith, text_beq_iff key k)
  budget_one (request now key l w) (some b) f = ground (arith, text_beq_iff key k)
  budget_one (tick now) none f = ground arith
  budget_one (tick now) (some b) f = ground arith

  let_through-le-budget :
      (evs : List Event) (m : Buckets)
      → All (Fits k limit window from) evs
      → IsUnique m
      → WithinCap evs m
      → let_through k evs m ≤ budget limit from (get k m)
  unfolding let_through WithinCap
  let_through-le-budget [] m f u c = omega arith
  let_through-le-budget (ev ∷ evs) m f u c =
      let later = let_through-le-budget evs (step ev m).0 f.1 (step-IsUnique ev m c.0 u) c.1 in
      rw (step_answer k ev m c.0)
        (omega (arith, budget_one ev (get k m) f.0, rw (get-step k ev m c.0 u) at later))

  -- In any span of one window's length at most twice the limit is let through for a key, whatever
  -- the clock does within the span and whatever the other keys ask, while the cap evicts nothing.
  pub let_through-le-double :
      (evs : List Event) (buckets : Buckets)
      → All (Fits k limit window from) evs
      → IsUnique buckets
      → WithinCap evs buckets
      → let_through k evs buckets ≤ 2 * limit
  let_through-le-double evs m f u c = ground (arith, let_through-le-budget evs m f u c)

  IsCurrent-after_one :
      (ev : Event) (b : Option Bucket)
      → Fits k limit window from ev
      → IsCurrent limit from b
      → IsCurrent limit from (after_one k ev b)
  IsCurrent-after_one (request now key l w) none f c = ground (arith, text_beq_iff key k)
  IsCurrent-after_one (request now key l w) (some b) f c = ground (arith, text_beq_iff key k)
  IsCurrent-after_one (tick now) none f c = tt
  IsCurrent-after_one (tick now) (some b) f c = ground arith

  left_one :
      (ev : Event) (b : Option Bucket) (n : ℕ)
      → Fits k limit window from ev
      → IsCurrent limit from b
      → tally (asks k ev && answer_one ev b) + min (left limit (after_one k ev b)) n
        ≡ min (left limit b) (tally (asks k ev) + n)
  left_one (request now key l w) none n f c = ground (arith, text_beq_iff key k)
  left_one (request now key l w) (some b) n f c = ground (arith, text_beq_iff key k)
  left_one (tick now) none n f c = ground arith
  left_one (tick now) (some b) n f c = ground arith

  -- From such a bucket exactly the first requests are let through, as many as the limit leaves:
  -- no request is refused too early and none passes too late.
  pub let_through-eq-min :
      (evs : List Event) (buckets : Buckets)
      → All (Fits k limit window from) evs
      → IsUnique buckets
      → WithinCap evs buckets
      → IsCurrent limit from (get k buckets)
      → let_through k evs buckets ≡ min (left limit (get k buckets)) (requests k evs)
  unfolding let_through requests WithinCap
  let_through-eq-min [] m f u c i = ground arith
  let_through-eq-min (ev ∷ evs) m f u c i =
      let b = get k m in
      let same = get-step k ev m c.0 u in
      let later =
        let_through-eq-min evs (step ev m).0 f.1 (step-IsUnique ev m c.0 u) c.1
          (rw same (IsCurrent-after_one ev b f.0 i)) in
      rw (step_answer k ev m c.0)
        (omega (arith, left_one ev b (requests k evs) f.0 i, rw same at later))
