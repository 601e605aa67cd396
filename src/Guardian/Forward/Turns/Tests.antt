-- ===== src/Guardian/Forward/Turns/Tests.antt =====
-- Two calls of one key and one of another.
use openpalm.Base.{
  ◌≡◌, ◌≤◌, refl, true, false, List, [], ◌∷◌, text_eq, codes, get, set, map, count_by,
}
use openpalm.Guardian.Forward.Turns.{
  Call, LockEvent, enter, go_on, enter_lock, resume_call, lock_step, run_locks,
}
use openpalm.Guardian.Forward.Turns.Links.{runs}
use openpalm.Guardian.Forward.Turns.Exclusion.{no_locks, turns_taken}

abbrev begun : List LockEvent
begun = enter (codes "a") ∷ enter (codes "a") ∷ enter (codes "b") ∷ go_on 0 ∷ go_on 1 ∷ go_on 2 ∷ []

-- The second call of the key waits.
second_waits :
    map (λ (c : Call). c.running) (run_locks begun no_locks).calls ≡ true ∷ false ∷ true ∷ []
unfolding run_locks lock_step enter_lock resume_call get set
second_waits = refl

turns_taken_example : count_by (runs (codes "a")) (run_locks begun no_locks).calls ≤ 1
turns_taken_example = turns_taken begun (codes "a")
