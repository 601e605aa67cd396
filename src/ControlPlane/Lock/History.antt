-- ===== src/ControlPlane/Lock/History.antt =====
-- Many processes, each of whose calls runs without another's in between.
use openpalm.Base.{
  ℕ, ◌≤◌, ◌≡◌, Bool, true, false, not, List, [], ◌∷◌, Option, some, nat_key, nat_beq_iff, arith,
  ◌==◌, length, keep, All, if◌then◌else◌,
}
use openpalm.ControlPlane.Lock.{
  LockInfo, Directory, read_lock_info, Phase, acquired, acquire_lock, release_lock,
}
use openpalm.ControlPlane.Lock.Alone.{acquire_held, read-acquire, release_foreign}

pub data Call : Type 0 where
  acquires releases : LockInfo → Call

-- The directory, and the processes that hold a handle.
pub record World : Type 0 where
  pub directory : Directory
  pub holders : List LockInfo

abbrev pub is_acquired : Phase → Bool
is_acquired acquired = true
is_acquired _ = false

unfoldable pub step : (ℕ → Bool) → Call → World → World
step alive (acquires me) w =
    let (phase, d) = acquire_lock alive me w.directory in
    record { directory = d; holders = if is_acquired phase then me ∷ w.holders else w.holders }
step alive (releases me) w = record {
  directory = release_lock me w.directory;
  holders = keep (λ i. not (i.pid == me.pid)) w.holders;
}

unfoldable pub run : (ℕ → Bool) → List Call → World → World
run alive [] w = w
run alive (c ∷ cs) w = run alive cs (step alive c w)

abbrev pub IsLive : (ℕ → Bool) → Call → Type 0
IsLive alive (acquires me) = alive me.pid ≡ true
IsLive alive (releases me) = Unit

-- Nobody holds a handle, or one live process does and the lock names it.
abbrev Owned : (ℕ → Bool) → List LockInfo → Option LockInfo → Type 0
Owned alive [] lock = Unit
Owned alive (i ∷ []) lock = (lock ≡ some i) × (alive i.pid ≡ true)
Owned alive (i ∷ j ∷ r) lock = ⊥

abbrev IsOwned : (ℕ → Bool) → World → Type 0
IsOwned alive w = Owned alive w.holders (read_lock_info w.directory)

acquire-IsOwned :
    (alive : ℕ → Bool) (me : LockInfo) (d : Directory) (hs : List LockInfo)
    → alive me.pid ≡ true
    → Owned alive hs (read_lock_info d)
    → IsOwned alive (step alive (acquires me) (record { directory = d; holders = hs }))
unfolding step
acquire-IsOwned alive me d [] live o = ground (arith, read-acquire alive me d)
acquire-IsOwned alive me d (i ∷ []) live o = rw (acquire_held alive me i d o.0 o.1) o
acquire-IsOwned alive me d (i ∷ j ∷ r) live o = elim o [ ]

release-IsOwned :
    (alive : ℕ → Bool) (me : LockInfo) (d : Directory) (hs : List LockInfo)
    → Owned alive hs (read_lock_info d)
    → IsOwned alive (step alive (releases me) (record { directory = d; holders = hs }))
unfolding step
release-IsOwned alive me d [] o = tt
release-IsOwned alive me d (i ∷ []) o =
    ground (arith, nat_beq_iff i.pid me.pid, release_foreign me i d)
release-IsOwned alive me d (i ∷ j ∷ r) o = elim o [ ]

step-IsOwned :
    (alive : ℕ → Bool) (c : Call) (w : World)
    → IsLive alive c
    → IsOwned alive w
    → IsOwned alive (step alive c w)
step-IsOwned alive (acquires me) w live o = acquire-IsOwned alive me w.directory w.holders live o
step-IsOwned alive (releases me) w live o = release-IsOwned alive me w.directory w.holders o

run-IsOwned :
    (alive : ℕ → Bool) (cs : List Call) (w : World)
    → All (IsLive alive) cs
    → IsOwned alive w
    → IsOwned alive (run alive cs w)
unfolding run
run-IsOwned alive [] w live o = o
run-IsOwned alive (c ∷ cs) w live o =
    run-IsOwned alive cs (step alive c w) live.1 (step-IsOwned alive c w live.0 o)

Owned-length :
    (alive : ℕ → Bool) (hs : List LockInfo) (lock : Option LockInfo)
    → Owned alive hs lock
    → length hs ≤ 1
Owned-length alive [] lock o = omega arith
Owned-length alive (i ∷ []) lock o = omega arith
Owned-length alive (i ∷ j ∷ r) lock o = elim o [ ]

-- As long as no call is interrupted by another and the processes that acquire stay alive, at most
-- one of them holds the lock at a time, whatever the directory was like at first.
pub holders-le-one :
    (alive : ℕ → Bool) (calls : List Call) (d : Directory)
    → All (IsLive alive) calls
    → length (run alive calls (record { directory = d; holders = [] })).holders ≤ 1
holders-le-one alive cs d live =
    Owned-length alive _ _ (run-IsOwned alive cs (record { directory = d; holders = [] }) live tt)
