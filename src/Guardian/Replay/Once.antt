-- ===== src/Guardian/Replay/Once.antt =====
-- A nonce is good for one message.
use openpalm.Base.{
  ℕ, suc, ◌+◌, ◌≤◌, ◌<◌, ◌≡◌, refl, ◌⊎◌, Bool, true, false, ◌&&◌, not, List, [], ◌∷◌, some, Text,
  text_eq, text_beq_iff, ◌==◌, length, arith, ltb, if◌then◌else◌, get, get-set, get-retain, set,
  length-set, evict_oldest_within, retain, length-keep_le, has, nat_beq,
}
use openpalm.Guardian.Replay.{
  Seen, Event, check, tick, step, check_nonce, prune_nonce_cache, clock_skew,
}

-- The nonce is in the cache with its timestamp, or the timestamp is out of the window for good.
abbrev pub IsSpent : Text → ℕ → ℕ → Seen → Type 0
IsSpent nonce ts now seen = (get nonce seen ≡ some ts) ⊎ (ts + clock_skew < now)

abbrev pub time : Event → ℕ
time (check now nonce ts) = now
time (tick now) = now

-- The clock does not go back.
abbrev pub InOrder : ℕ → List Event → Type 0
InOrder now [] = Unit
InOrder now (ev ∷ evs) = (now ≤ time ev) × InOrder (time ev) evs

-- The hard cap evicts nothing on the way: no cache outgrows it, the nonce in hand counted.
unfoldable pub WithinCap : ℕ → List Event → Seen → Type 0
WithinCap max_size [] seen = Unit
WithinCap max_size (ev ∷ evs) seen =
    (suc (length seen) ≤ max_size) × WithinCap max_size evs (step max_size ev seen).0

-- How often a message with this nonce and timestamp is accepted.
abbrev presents : Text → ℕ → Event → Bool
presents nonce ts (check now n t) = (n == nonce) && nat_beq t ts
presents nonce ts (tick now) = false

unfoldable pub accepted : ℕ → Text → ℕ → List Event → Seen → ℕ
accepted max_size nonce ts [] seen = 0
accepted max_size nonce ts (ev ∷ evs) seen =
    (if presents nonce ts ev && (step max_size ev seen).1 then 1 else 0)
    + accepted max_size nonce ts evs (step max_size ev seen).0

pub prune-IsSpent :
    (max_size now : ℕ) (nonce : Text) (ts : ℕ) (seen : Seen)
    → length seen ≤ max_size
    → IsSpent nonce ts now seen
    → IsSpent nonce ts now (prune_nonce_cache max_size now seen)
unfolding prune_nonce_cache
prune-IsSpent max_size now nonce ts seen h s =
    rw (evict_oldest_within (λ (v : ℕ). v) max_size (retain lives seen) small)
      (ground (arith, get-retain lives nonce ts seen))
  where
    lives : ℕ → Bool
    lives v = not (ltb (v + clock_skew) now)

    small : length (retain lives seen) ≤ max_size
    small = omega (arith, h, length-keep_le (λ (en : Text × ℕ). lives en.1) seen)

module _ (max_size : ℕ) (nonce : Text) (ts : ℕ) where
  set-IsSpent :
      (now : ℕ) (n : Text) (t : ℕ) (seen : Seen)
      → has n seen ≡ false
      → IsSpent nonce ts now seen
      → IsSpent nonce ts now (set n t seen)
  set-IsSpent now n t seen h s = ground (arith, text_beq_iff n nonce, get-set n nonce t seen)

  pub check-IsSpent :
      (now : ℕ) (n : Text) (t : ℕ) (seen : Seen)
      → suc (length seen) ≤ max_size
      → IsSpent nonce ts now seen
      → IsSpent nonce ts now (check_nonce max_size now n t seen).0
  unfolding check_nonce
  check-IsSpent now n t seen h s = ground (
    arith,
    length-set n t seen,
    set-IsSpent now n t seen,
    prune-IsSpent max_size now nonce ts (set n t seen),
  )

  -- A message that is accepted is spent.
  pub accept-IsSpent :
      (now : ℕ) (seen : Seen)
      → suc (length seen) ≤ max_size
      → (check_nonce max_size now nonce ts seen).1 ≡ true
      → IsSpent nonce ts now (check_nonce max_size now nonce ts seen).0
  unfolding check_nonce
  accept-IsSpent now seen h e = ground (
    arith,
    text_beq_iff nonce nonce,
    length-set nonce ts seen,
    get-set nonce nonce ts seen,
    prune-IsSpent max_size now nonce ts (set nonce ts seen),
  )

  -- A spent one is refused.
  pub spent_refused :
      (now : ℕ) (seen : Seen)
      → IsSpent nonce ts now seen
      → (check_nonce max_size now nonce ts seen).1 ≡ false
  unfolding check_nonce
  spent_refused now seen s = ground arith

  same_refused :
      (now : ℕ) (n : Text) (t : ℕ) (seen : Seen)
      → n ≡ nonce
      → t ≡ ts
      → IsSpent nonce ts now seen
      → (check_nonce max_size now n t seen).1 ≡ false
  same_refused now n t seen p q s = rw (p, q) (spent_refused now seen s)

  step-IsSpent :
      (ev : Event) (before : ℕ) (seen : Seen)
      → before ≤ time ev
      → suc (length seen) ≤ max_size
      → IsSpent nonce ts before seen
      → IsSpent nonce ts (time ev) (step max_size ev seen).0
  unfolding step
  step-IsSpent (check now n t) before seen o h s = check-IsSpent now n t seen h (ground arith)
  step-IsSpent (tick now) before seen o h s =
      prune-IsSpent max_size now nonce ts seen (omega arith) (ground arith)

  step_refused :
      (ev : Event) (before : ℕ) (seen : Seen)
      → before ≤ time ev
      → IsSpent nonce ts before seen
      → (presents nonce ts ev && (step max_size ev seen).1) ≡ false
  unfolding step
  step_refused (check now n t) before seen o s =
      ground (arith, text_beq_iff n nonce, same_refused now n t seen)
  step_refused (tick now) before seen o s = refl

  spent_for_good :
      (evs : List Event) (now : ℕ) (seen : Seen)
      → InOrder now evs
      → WithinCap max_size evs seen
      → IsSpent nonce ts now seen
      → accepted max_size nonce ts evs seen ≡ 0
  unfolding accepted WithinCap
  spent_for_good [] now seen o c s = refl
  spent_for_good (ev ∷ evs) now seen o c s = rw (step_refused ev now seen o.0 s) (
      omega (
        arith,
        spent_for_good evs (time ev) (step max_size ev seen).0 o.1 c.1
            (step-IsSpent ev now seen o.0 c.0 s),
      ))

  -- Once a message is accepted, no later message with its nonce and timestamp is, through any
  -- history of other messages and timer ticks in which the clock does not go back and the hard
  -- cap evicts nothing: what the pruning forgets, the clock window refuses.
  pub accepted_once :
      (now : ℕ) (seen : Seen) (evs : List Event)
      → suc (length seen) ≤ max_size
      → (check_nonce max_size now nonce ts seen).1 ≡ true
      → InOrder now evs
      → WithinCap max_size evs (check_nonce max_size now nonce ts seen).0
      → accepted max_size nonce ts evs (check_nonce max_size now nonce ts seen).0 ≡ 0
  accepted_once now seen evs h e o c = spent_for_good evs now _ o c (accept-IsSpent now seen h e)
