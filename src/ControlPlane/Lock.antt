-- ===== src/ControlPlane/Lock.antt =====
-- packages/lib/src/control-plane/lock.ts: the orchestrator lock. Each system call is one step, so
-- that two processes can be interleaved between them; run alone, the steps are `acquireLock`.
-- `alive` says of a process whether `process.kill(pid, 0)` returns, which is all that
-- `isProcessAlive` asks: a call that throws, for whatever reason, makes the process a dead one. The
-- corrupt and the stale branch of the source retry in the same way, and are one path here.
pub mod Alone
pub mod History
pub mod Race
pub mod Tests
use openpalm.Base.{
  ℕ, zero, suc, ◌+◌, Bool, true, false, Option, none, some, Text, codes, Map, get, set, nat_key,
  ◌==◌, if◌then◌else◌, or_else, ◌>>=◌,
}

pub record LockInfo : Type 0 where
  pub pid : ℕ
  pub operation : Text
  pub acquired_at : Text

-- What `readLockInfo` makes of a file: an empty file, or one that is not the JSON of a lock, is
-- `corrupt`.
pub data Content : Type 0 where
  corrupt : Content
  holds : LockInfo → Content

-- The lock's directory: the file that the path names, if any, and the contents of the files, those
-- without a name included. In a `denied` directory no file can be created or removed.
pub record Directory : Type 0 where
  pub named : Option ℕ
  pub contents : Map ℕ Content
  pub next_file : ℕ
  pub denied : Bool

abbrev content_info : Content → Option LockInfo
content_info corrupt = none
content_info (holds i) = some i

unfoldable pub read_lock_info : Directory → Option LockInfo
read_lock_info d = do file ← d.named; content ← get file d.contents; content_info content

abbrev pub unknown_holder : LockInfo
unknown_holder = record { pid = 0; operation = codes "unknown"; acquired_at = codes "unknown" }

-- Where a process stands in `acquireLock`. `opening true` is the first attempt.
pub data Phase : Type 0 where
  opening : Bool → Phase
  writing : ℕ → Phase
  reading unlinking reading_winner : Phase
  acquired : Phase
  refused : LockInfo → Phase
  failed : Phase

-- `openSync` with `O_CREAT | O_EXCL`.
unfoldable pub open_exclusive : Bool → Directory → Phase × Directory
open_exclusive first d = elim d.named [
  | some file ↦ (if first then reading else reading_winner, d)
  | none ↦ if d.denied then (failed, d) else (
    writing d.next_file,
    record d {
      named = some d.next_file;
      contents = set d.next_file corrupt d.contents;
      next_file = suc d.next_file;
    },
  )
]

-- `unlinkSync` with its exception caught.
unfoldable pub unlink : Directory → Directory
unlink d = if d.denied then d else record d { named = none }

unfoldable pub advance : (ℕ → Bool) → LockInfo → Phase → Directory → Phase × Directory
unfolding open_exclusive read_lock_info unlink
advance alive me (opening first) d = open_exclusive first d
advance alive me (writing file) d =
    (acquired, record d { contents = set file (holds me) d.contents })
advance alive me reading d = elim (read_lock_info d) [
  | none ↦ (unlinking, d)
  | some existing ↦ (if alive existing.pid then refused existing else unlinking, d)
]
advance alive me unlinking d = (opening false, unlink d)
advance alive me reading_winner d = (refused (or_else (read_lock_info d) unknown_holder), d)
advance alive me acquired d = (acquired, d)
advance alive me (refused holder) d = (refused holder, d)
advance alive me failed d = (failed, d)

unfoldable pub advances : ℕ → (ℕ → Bool) → LockInfo → Phase × Directory → Phase × Directory
unfolding advance
advances zero alive me s = s
advances (suc n) alive me (phase, d) = advances n alive me (advance alive me phase d)

-- At most five system calls are made.
unfoldable pub acquire_lock : (ℕ → Bool) → LockInfo → Directory → Phase × Directory
unfolding advances
acquire_lock alive me d = advances 5 alive me (opening true, d)

unfoldable pub release_lock : LockInfo → Directory → Directory
unfolding read_lock_info unlink
release_lock me d = elim (read_lock_info d) [
  | none ↦ d
  | some existing ↦ if existing.pid == me.pid then unlink d else d
]
