-- ===== src/Guardian/Forward/Turns/Exclusion.antt =====
-- The calls of one key exclude each other.
use openpalm.Base.{
  ℕ, suc, ◌≤◌, ◌<◌, ◌≡◌, ◌++◌, inl, inr, refl, subst, arith, false, not, List, [], ◌∷◌,
  Option-cases, Bool-cases, Text, text_eq, text_beq_iff, Map, get, keep, count_by, nat_beq, ◌==◌,
  All, All-append,
}
use openpalm.Guardian.Forward.Turns.{
  Call, Locks, LockEvent, enter, go_on, finish, enter_lock, resume_call, running_call, finish_call,
  lock_step, run_locks,
}
use openpalm.Guardian.Forward.Turns.Links.{
  Linked, Rising, Below, runs, none_behind, enter-Linked, resume-Linked, AreLive-self, resume-All,
  resume-Rising,
}
use openpalm.Guardian.Forward.Turns.Ending.{finish-Linked}

record IsSound (s : Locks) : Type 0 where
  linked : Linked s.last s.calls
  rising : Rising s.calls
  below : Below s.next s.calls

append-Rising :
    (n : ℕ) (cs : List Call) (w : Call)
    → w.number ≡ n
    → Below n cs
    → Rising cs
    → Rising (cs ++ w ∷ []) × Below (suc n) (cs ++ w ∷ [])
append-Rising n [] w e b r = ((tt, tt), (omega arith, tt))
append-Rising n (c ∷ cs) w e b r =
    let rest = append-Rising n cs w e b.1 r.1 in
    let above : All (λ (d : Call). c.number < d.number) (cs ++ w ∷ []) =
      All-append (λ (d : Call). c.number < d.number) cs (w ∷ []) r.0 (omega (arith, b.0), tt) in
    ((above, rest.0), (omega (arith, b.0), rest.1))

keep-All :
    (P : ℕ → Type 0) (n : ℕ) (cs : List Call)
    → All (λ (c : Call). P c.number) cs
    → All (λ (c : Call). P c.number) (keep (λ (d : Call). not (nat_beq d.number n)) cs)
keep-All P n [] h = tt
keep-All P n (c ∷ cs) h = elim (Bool-cases (nat_beq c.number n)) [
  | inl e ↦ rw e (keep-All P n cs h.1)
  | inr e ↦ rw e (h.0, keep-All P n cs h.1)
]

keep-Rising :
    (n : ℕ) (cs : List Call) → Rising cs → Rising (keep (λ (d : Call). not (nat_beq d.number n)) cs)
keep-Rising n [] h = tt
keep-Rising n (c ∷ cs) h = elim (Bool-cases (nat_beq c.number n)) [
  | inl e ↦ rw e (keep-Rising n cs h.1)
  | inr e ↦ rw e (keep-All (λ m. c.number < m) n cs h.0, keep-Rising n cs h.1)
]

step-IsSound : (e : LockEvent) (s : Locks) → IsSound s → IsSound (lock_step e s)
unfolding lock_step enter_lock resume_call finish_call
step-IsSound (enter key) s h =
    let w : Call = record {
      key = key;
      number = s.next;
      previous = get key s.last;
      running = false;
    } in
    let new = append-Rising s.next s.calls w refl h.below h.rising in
    record {
      linked = enter-Linked s.last s.calls key s.next h.linked;
      rising = new.0;
      below = new.1;
    }
step-IsSound (go_on n) s h = record {
  linked = resume-Linked s.last s.calls n s.calls (AreLive-self s.calls) h.linked;
  rising = resume-Rising s.calls n s.calls h.rising;
  below = resume-All (λ m. m < s.next) s.calls n s.calls h.below;
}
step-IsSound (finish n) s h = elim (Option-cases (running_call n s.calls)) [
  | inl e ↦ rw (lock_step, finish_call, e) h
  | inr (c, e) ↦
      rw (lock_step, finish_call, e)
        (record {
          linked = finish-Linked n s.last s.calls c h.rising h.linked e;
          rising = keep-Rising n s.calls h.rising;
          below = keep-All (λ m. m < s.next) n s.calls h.below;
        })
]

run-IsSound : (es : List LockEvent) (s : Locks) → IsSound s → IsSound (run_locks es s)
unfolding run_locks
run-IsSound [] s h = h
run-IsSound (e ∷ es) s h = run-IsSound es (lock_step e s) (step-IsSound e s h)

Linked-alone :
    (last : Map Text ℕ) (cs : List Call) (key : Text) → Linked last cs → count_by (runs key) cs ≤ 1
Linked-alone last [] key h = omega arith
Linked-alone last (c ∷ cs) key h = elim (Bool-cases (c.key == key)) [
  | inr other ↦ ground (arith, other, Linked-alone last cs key h.1)
  | inl same ↦
      let equal = (text_beq_iff c.key key).0 same in
      let idle : count_by (runs key) cs ≡ 0 =
        subst (λ k. count_by (runs k) cs ≡ 0) equal (none_behind last c cs h) in
      ground (arith, idle)
]

abbrev pub no_locks : Locks
no_locks = record { last = []; calls = []; next = 0 }

-- In every history of calls that enter, go on and end, at most one call of a key runs at a time.
pub turns_taken :
    (events : List LockEvent) (key : Text)
    → count_by (runs key) (run_locks events no_locks).calls ≤ 1
turns_taken events key =
    let sound = run-IsSound events no_locks (record { linked = tt; rising = tt; below = tt }) in
    Linked-alone (run_locks events no_locks).last (run_locks events no_locks).calls key sound.linked
