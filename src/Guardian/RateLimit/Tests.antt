-- ===== src/Guardian/RateLimit/Tests.antt =====
-- Runs of the rate limiter at concrete inputs.
use openpalm.Base.{
  ◌≤◌, min, ◌≡◌, refl, [], ◌∷◌, List, Text, text_eq, codes, arith, get, IsUnique, All, set,
  evict_oldest,
}
use openpalm.Guardian.RateLimit.{
  Buckets, Event, request, tick, step, allow, admit, prune_rate_limit_buckets,
}
use openpalm.Guardian.RateLimit.Window.{
  let_through, requests, WithinCap, Fits, left, let_through-le-double, let_through-eq-min,
}

abbrev alice : Text
alice = codes "alice"

abbrev bob : Text
bob = codes "bob"

-- Three requests of one user in 70 ms, one of another, and the timer in between.
abbrev morning : List Event
morning =
    request 1000 alice 2 100
    ∷ request 1010 bob 2 100
    ∷ tick 1050
    ∷ request 1060 alice 2 100
    ∷ request 1070 alice 2 100
    ∷ []

abbrev no_buckets : Buckets
no_buckets = []

abbrev one_bucket : Buckets
one_bucket = (bob, record { count = 1; start = 990 }) ∷ []

one_bucket-IsUnique : IsUnique one_bucket
one_bucket-IsUnique k = ground arith

morning-Fits : All (Fits alice 2 100 1000) morning
morning-Fits = omega arith

morning-WithinCap : WithinCap morning one_bucket
unfolding WithinCap step allow admit prune_rate_limit_buckets set get evict_oldest
morning-WithinCap = omega arith

burst : let_through alice morning one_bucket ≡ 2
unfolding let_through step allow admit prune_rate_limit_buckets set get evict_oldest
burst = refl

let_through-le-double_example : let_through alice morning one_bucket ≤ 4
let_through-le-double_example =
    let_through-le-double alice 2 100 1000 (omega arith) (omega arith) morning one_bucket
      morning-Fits one_bucket-IsUnique morning-WithinCap

let_through-eq-min_example :
    let_through alice morning one_bucket
    ≡ min (left 2 (get alice one_bucket)) (requests alice morning)
unfolding get
let_through-eq-min_example =
    let_through-eq-min alice 2 100 1000 (omega arith) (omega arith) morning one_bucket morning-Fits
      one_bucket-IsUnique morning-WithinCap tt
