-- ===== src/Guardian/Forward/Turns.antt =====
-- core/guardian/src/forward.ts: `withSessionLock`, which makes the calls of one key take turns. A
-- call is named by the number of its promise; the promise of another is released when that call
-- has ended, so that a call may go on when the one it waits for is no longer among the live ones.
pub mod Links
pub mod Ending
pub mod Exclusion
pub mod Tests
use openpalm.Base.{
  ℕ, suc, ◌++◌, Bool, true, false, ◌&&◌, not, List, [], ◌∷◌, Option, none, some, Text, text_eq, Map,
  get, set, delete, map, keep, any_by, nat_beq, if◌then◌else◌, ◌==◌,
}

-- A call that has entered and not ended; `previous` is what it found in the map.
pub record Call : Type 0 where
  pub key : Text
  pub number : ℕ
  pub previous : Option ℕ
  pub running : Bool

pub record Locks : Type 0 where
  -- `sessionLocks`: the last call of each key.
  pub last : Map Text ℕ
  -- In the order in which they entered.
  pub calls : List Call
  pub next : ℕ

pub data LockEvent : Type 0 where
  enter : Text → LockEvent
  go_on : ℕ → LockEvent
  finish : ℕ → LockEvent

abbrev pub is_live : List Call → ℕ → Bool
is_live calls n = any_by (λ (c : Call). nat_beq c.number n) calls

-- Whether what the call waits for is released.
abbrev pub is_released : List Call → Option ℕ → Bool
is_released calls none = true
is_released calls (some n) = not (is_live calls n)

unfoldable pub enter_lock : Text → Locks → Locks
enter_lock key s = record {
  last = set key s.next s.last;
  calls =
      s.calls
      ++ record { key = key; number = s.next; previous = get key s.last; running = false } ∷ [];
  next = suc s.next;
}

abbrev pub resume : List Call → ℕ → Call → Call
resume calls n c =
    if nat_beq c.number n && is_released calls c.previous then record c { running = true } else c

unfoldable pub resume_call : ℕ → Locks → Locks
resume_call n s = record s { calls = map (resume s.calls n) s.calls }

-- The running call of the number.
unfoldable pub running_call : ℕ → List Call → Option Call
running_call n [] = none
running_call n (c ∷ calls) =
    let rest = running_call n calls in if nat_beq c.number n && c.running then some c else rest

-- The entry of the map goes only if it is still the call's own.
abbrev pub forget_own : Call → Map Text ℕ → Map Text ℕ
forget_own c last = elim (get c.key last) [
  | none ↦ last
  | some n ↦ if nat_beq n c.number then delete c.key last else last
]

unfoldable pub finish_call : ℕ → Locks → Locks
unfolding running_call
finish_call n s = elim (running_call n s.calls) [
  | none ↦ s
  | some c ↦ record s {
    last = forget_own c s.last;
    calls = keep (λ (d : Call). not (nat_beq d.number n)) s.calls;
  }
]

unfoldable pub lock_step : LockEvent → Locks → Locks
unfolding enter_lock resume_call finish_call
lock_step (enter key) s = enter_lock key s
lock_step (go_on n) s = resume_call n s
lock_step (finish n) s = finish_call n s

unfoldable pub run_locks : List LockEvent → Locks → Locks
unfolding lock_step
run_locks [] s = s
run_locks (e ∷ es) s = run_locks es (lock_step e s)
