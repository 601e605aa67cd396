-- ===== src/ControlPlane/Lock/Tests.antt =====
-- The lock at concrete inputs.
use openpalm.Base.{
  ℕ, ◌≤◌, ◌≡◌, ◌↔◌, refl, Bool, true, false, [], ◌∷◌, none, some, codes, get, nat_key, nat_beq,
  length,
}
use openpalm.ControlPlane.Lock.{LockInfo, holds, Directory, read_lock_info, acquired, acquire_lock}
use openpalm.ControlPlane.Lock.Alone.{IsFree, acquire_iff}
use openpalm.ControlPlane.Lock.History.{acquires, releases, run, holders-le-one}
use openpalm.ControlPlane.Lock.Race.{
  BothHold, interleave, starting, look_early, unlink_late, both_acquire_fresh, both_acquire_stale,
}

abbrev install : LockInfo
install = record { pid = 7; operation = codes "install"; acquired_at = codes "t1" }

abbrev upgrade : LockInfo
upgrade = record { pid = 8; operation = codes "upgrade"; acquired_at = codes "t2" }

abbrev no_lock : Directory
no_lock = record { named = none; contents = []; next_file = 0; denied = false }

abbrev install_lock : Directory
install_lock = record {
  named = some 0;
  contents = (0, holds install) ∷ [];
  next_file = 1;
  denied = false;
}

abbrev seven_lives : ℕ → Bool
seven_lives pid = nat_beq pid 7

abbrev all_live : ℕ → Bool
all_live pid = true

abbrev none_live : ℕ → Bool
none_live pid = false

acquire_iff_example :
    ((acquire_lock none_live upgrade install_lock).0 ≡ acquired)
    ↔ ((install_lock.denied ≡ false) × IsFree none_live install_lock)
acquire_iff_example = acquire_iff none_live upgrade install_lock

holders-le-one_example :
    length
      (run all_live
        (acquires install ∷ acquires upgrade ∷ releases install ∷ [])
        (record { directory = no_lock; holders = [] })).holders
    ≤ 1
holders-le-one_example =
    holders-le-one all_live (acquires install ∷ acquires upgrade ∷ releases install ∷ []) no_lock
      (refl, (refl, (tt, tt)))

both_acquire_fresh_example :
    BothHold (interleave all_live install upgrade look_early (starting no_lock))
both_acquire_fresh_example = both_acquire_fresh all_live install upgrade no_lock refl refl

both_acquire_stale_example :
    BothHold (interleave none_live upgrade install unlink_late (starting install_lock))
unfolding read_lock_info get
both_acquire_stale_example =
    both_acquire_stale none_live upgrade install install install_lock refl refl refl
