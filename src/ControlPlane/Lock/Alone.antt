-- ===== src/ControlPlane/Lock/Alone.antt =====
-- The lock in the hands of one process at a time.
use openpalm.Base.{
  ℕ, ◌≡◌, ◌≢◌, ◌↔◌, ◌⊎◌, Bool, true, false, none, some, set, get-set, nat_key, arith,
}
use openpalm.ControlPlane.Lock.{
  LockInfo, corrupt, holds, Directory, read_lock_info, acquired, refused, acquire_lock,
  release_lock,
}

-- A lock that a live process holds is refused, with its holder, and nothing is changed.
pub acquire_held :
    (alive : ℕ → Bool) (me holder : LockInfo) (d : Directory)
    → read_lock_info d ≡ some holder
    → alive holder.pid ≡ true
    → acquire_lock alive me d ≡ (refused holder, d)
unfolding acquire_lock
acquire_held alive me holder d e a = ground (arith, e, a)

-- There is no lock to read, or its holder is dead.
abbrev pub IsFree : (ℕ → Bool) → Directory → Type 0
IsFree alive d =
    (read_lock_info d ≡ none)
    ⊎ ((i : LockInfo) × (read_lock_info d ≡ some i) × (alive i.pid ≡ false))

acquire_free :
    (alive : ℕ → Bool) (me : LockInfo) (d : Directory)
    → d.denied ≡ false
    → IsFree alive d
    → ((acquire_lock alive me d).0 ≡ acquired)
      × (read_lock_info (acquire_lock alive me d).1 ≡ some me)
unfolding acquire_lock
acquire_free alive me d open_dir f =
    ground (arith, get-set d.next_file d.next_file (holds me) (set d.next_file corrupt d.contents))

acquired-IsFree :
    (alive : ℕ → Bool) (me : LockInfo) (d : Directory)
    → (acquire_lock alive me d).0 ≡ acquired
    → (d.denied ≡ false) × IsFree alive d
unfolding acquire_lock
acquired-IsFree alive me d e = ground arith

-- A process alone gets the lock exactly when its directory can be written and there is no lock to
-- read or its holder is dead.
pub acquire_iff :
    (alive : ℕ → Bool) (me : LockInfo) (d : Directory)
    → ((acquire_lock alive me d).0 ≡ acquired) ↔ ((d.denied ≡ false) × IsFree alive d)
acquire_iff alive me d = (acquired-IsFree alive me d, λ h. (acquire_free alive me d h.0 h.1).0)

-- When a process alone has got the lock, the lock can be read and names it.
pub read-acquire :
    (alive : ℕ → Bool) (me : LockInfo) (d : Directory)
    → (acquire_lock alive me d).0 ≡ acquired
    → read_lock_info (acquire_lock alive me d).1 ≡ some me
read-acquire alive me d e =
    let (open_dir, free) = acquired-IsFree alive me d e in (acquire_free alive me d open_dir free).1

-- A release by any other process leaves the lock as it is.
pub release_foreign :
    (me i : LockInfo) (d : Directory)
    → read_lock_info d ≡ some i
    → i.pid ≢ me.pid
    → release_lock me d ≡ d
unfolding release_lock
release_foreign me i d e p = ground (arith, e, p)
