-- ===== src/ControlPlane/Lock/Race.antt =====
-- Two processes interleaved between their system calls can both get the lock.
use openpalm.Base.{ℕ, ◌≡◌, Bool, true, false, List, [], ◌∷◌, none, some, get-set, nat_key, arith}
use openpalm.ControlPlane.Lock.{
  LockInfo, corrupt, Directory, read_lock_info, Phase, opening, acquired, advance,
}

pub record Race : Type 0 where
  pub first : Phase
  pub second : Phase
  pub directory : Directory

-- `true` is a step of the first process, `false` one of the second.
unfoldable pub interleave : (ℕ → Bool) → LockInfo → LockInfo → List Bool → Race → Race
interleave alive me you [] r = r
interleave alive me you (true ∷ moves) r =
    let (p, d) = advance alive me r.first r.directory in
    interleave alive me you moves (record { first = p; second = r.second; directory = d })
interleave alive me you (false ∷ moves) r =
    let (p, d) = advance alive you r.second r.directory in
    interleave alive me you moves (record { first = r.first; second = p; directory = d })

abbrev pub starting : Directory → Race
starting d = record { first = opening true; second = opening true; directory = d }

-- Both end up with the lock.
abbrev pub BothHold : Race → Type 0
BothHold r = (r.first ≡ acquired) × (r.second ≡ acquired)

-- The second process looks between the first's `openSync` and its `writeSync`: the lock is empty
-- and passes for corrupt.
abbrev pub look_early : List Bool
look_early = true ∷ false ∷ false ∷ false ∷ true ∷ false ∷ false ∷ []

-- From every directory without a lock that can be written, the two processes have a schedule in
-- which both get the lock, whoever they are and alive or not.
pub both_acquire_fresh :
    (alive : ℕ → Bool) (me you : LockInfo) (d : Directory)
    → d.named ≡ none
    → d.denied ≡ false
    → BothHold (interleave alive me you look_early (starting d))
unfolding interleave advance
both_acquire_fresh alive me you d e open_dir =
    ground (arith, get-set d.next_file d.next_file corrupt d.contents)

-- The second process decides to remove the stale lock, and does so when the first has already put
-- its own in that place.
abbrev pub unlink_late : List Bool
unlink_late = true ∷ true ∷ false ∷ false ∷ true ∷ true ∷ true ∷ false ∷ false ∷ false ∷ []

-- From every directory with a lock whose holder is dead, and that can be written, the two
-- processes have a schedule in which both get the lock.
pub both_acquire_stale :
    (alive : ℕ → Bool) (me you holder : LockInfo) (d : Directory)
    → read_lock_info d ≡ some holder
    → alive holder.pid ≡ false
    → d.denied ≡ false
    → BothHold (interleave alive me you unlink_late (starting d))
unfolding interleave advance
both_acquire_stale alive me you holder d e dead open_dir = ground (arith, e, dead)
