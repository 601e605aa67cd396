-- ===== src/ControlPlane/Rollback/Restores.antt =====
-- What a restoration brings back.
use openpalm.Base.{
  ◌≡◌, ◌⊎◌, inl, inr, refl, arith, ◌++◌, Bool, true, false, ◌||◌, List, [], ◌∷◌, Option, none, some,
  Option-cases, Bool-cases, Text, text_eq, text_beq_iff, Map, get, get-set, has, map, ◌==◌,
}
use openpalm.ControlPlane.Rollback.{
  Tree, Disk, snapshot_files, core_compose, addon_compose, timestamp_file, safe_copy, copy_all,
  holds, copy_dirs, copied_paths, copy_tree, snapshot_current_state, has_snapshot, restore_snapshot,
}

-- What a path holds after a copy: the source's file if it is copied and there, and else what was.
copied : Bool → Option Text → Option Text → Option Text
copied false src dest = dest
copied true none dest = dest
copied true (some c) dest = some c

get-safe_copy :
    (path p : Text) (src dest : Map Text Text)
    → get p (safe_copy path src dest) ≡ copied (path == p) (get p src) (get p dest)
unfolding safe_copy copied
get-safe_copy path p src dest = elim (Option-cases (get path src)) [
  | inl e ↦ ground (arith, e, text_beq_iff path p)
  | inr (c, e) ↦ ground (arith, e, text_beq_iff path p, get-set path p c dest)
]

get-copy_all :
    (paths : List Text) (p : Text) (src dest : Map Text Text)
    → get p (copy_all paths src dest) ≡ copied (holds p paths) (get p src) (get p dest)
unfolding copy_all copied
get-copy_all [] p src dest = refl
get-copy_all (path ∷ paths) p src dest =
    ground
      (arith, get-copy_all paths p src (safe_copy path src dest), get-safe_copy path p src dest)

holds-append : (p : Text) (xs ys : List Text) → holds p (xs ++ ys) ≡ (holds p xs || holds p ys)
holds-append p [] ys = refl
holds-append p (x ∷ xs) ys = ground (arith, holds-append p xs ys)

holds-copy_dirs_old :
    (names : List Text) (src : Map Text Text) (dest : List Text) (n : Text)
    → holds n dest ≡ true
    → holds n (copy_dirs names src dest) ≡ true
unfolding copy_dirs
holds-copy_dirs_old [] src dest n h = h
holds-copy_dirs_old (name ∷ names) src dest n h =
    holds-copy_dirs_old names src _ n (ground (arith, holds-append n dest (name ∷ [])))

-- An addon with a file is among the copied directories.
holds-copy_dirs :
    (names : List Text) (src : Map Text Text) (dest : List Text) (n : Text)
    → holds n names ≡ true
    → has (addon_compose n) src ≡ true
    → holds n (copy_dirs names src dest) ≡ true
unfolding copy_dirs
holds-copy_dirs [] src dest n h there = cc
holds-copy_dirs (name ∷ names) src dest n h there = elim (Bool-cases (name == n)) [
  | inr other ↦ holds-copy_dirs names src _ n (ground arith) there
  | inl same ↦
      holds-copy_dirs_old names src _ n
        (ground (arith, text_beq_iff name n, holds-append n dest (name ∷ [])))
]

holds-map :
    (names : List Text) (n : Text)
    → holds n names ≡ true
    → holds (addon_compose n) (map addon_compose names) ≡ true
holds-map [] n h = cc
holds-map (name ∷ names) n h = ground (
  arith,
  text_beq_iff name n,
  text_beq_iff (addon_compose name) (addon_compose n),
  holds-map names n,
)

-- A file that a snapshot takes: one of the known ones, or that of an addon.
abbrev pub IsTracked : Tree → Text → Type 0
IsTracked t p =
    (holds p (snapshot_files ++ core_compose ∷ []) ≡ true)
    ⊎ ((n : Text) × (holds n t.addons ≡ true) × (p ≡ addon_compose n))

holds-copied_paths :
    (known : List Text) (p : Text) (rest : List Text)
    → (holds p known ≡ true) ⊎ (holds p rest ≡ true)
    → holds p (known ++ rest) ≡ true
holds-copied_paths known p rest (inl h) = rw (holds-append p known rest, h) refl
holds-copied_paths known p rest (inr h) = ground (arith, holds-append p known rest)

tracked_copied : (t : Tree) (p : Text) → IsTracked t p → holds p (copied_paths t) ≡ true
tracked_copied t p (inl h) =
    holds-copied_paths (snapshot_files ++ core_compose ∷ []) p (map addon_compose t.addons) (inl h)
tracked_copied t p (inr (n, h, e)) =
    holds-copied_paths (snapshot_files ++ core_compose ∷ []) p (map addon_compose t.addons)
      (inr (rw e (holds-map t.addons n h)))

tracked-marker : (t : Tree) (p : Text) → IsTracked t p → (timestamp_file == p) ≡ false
tracked-marker t p tracked = elim (Bool-cases (timestamp_file == p)) [
  | inr other ↦ other
  | inl same ↦ elim tracked [
    | inl h ↦ ground (arith, h, text_beq_iff timestamp_file p)
    | inr (n, h, e) ↦ ground (arith, e, text_beq_iff timestamp_file p)
  ]
]

-- What is tracked and there is tracked in the snapshot as well.
snapshot-IsTracked :
    (now p c : Text) (d : Disk)
    → IsTracked d.home p
    → get p d.home.files ≡ some c
    → IsTracked (snapshot_current_state now d).rollback p
unfolding snapshot_current_state copy_tree
snapshot-IsTracked now p c d (inl h) there = inl h
snapshot-IsTracked now p c d (inr (n, h, e)) there = inr (
  n,
  holds-copy_dirs d.home.addons d.home.files d.rollback.addons n h (ground (arith, e, there)),
  e,
)

get-snapshot :
    (now p c : Text) (d : Disk)
    → IsTracked d.home p
    → get p d.home.files ≡ some c
    → get p (snapshot_current_state now d).rollback.files ≡ some c
unfolding snapshot_current_state copy_tree copied
get-snapshot now p c d tracked there = ground (
  arith,
  there,
  tracked_copied d.home p tracked,
  tracked-marker d.home p tracked,
  get-set timestamp_file p now (copy_all (copied_paths d.home) d.home.files d.rollback.files),
  get-copy_all (copied_paths d.home) p d.home.files d.rollback.files,
)

get-restored :
    (d : Disk) (q : Text)
    → has_snapshot d ≡ true
    → (r : Disk) × (restore_snapshot d ≡ some r)
      × (get q r.home.files
          ≡ copied
              (holds q (copied_paths d.rollback))
              (get q d.rollback.files)
              (get q d.home.files))
unfolding restore_snapshot copy_tree
get-restored d q h = (
  record d { home = copy_tree d.rollback d.home },
  rw h refl,
  get-copy_all (copied_paths d.rollback) q d.rollback.files d.home.files,
)

has_snapshot-after :
    (now : Text) (d : Disk) (later : Tree)
    → has_snapshot (record (snapshot_current_state now d) { home = later }) ≡ true
unfolding has_snapshot snapshot_current_state copy_tree
has_snapshot-after now d later =
    rw
      (get-set timestamp_file timestamp_file now
        (copy_all (copied_paths d.home) d.home.files d.rollback.files))
      refl

-- A tracked file that is there when the snapshot is taken has that content after a restoration,
-- whatever the home directory has become in between.
pub restore-snapshot :
    (now p c : Text) (d : Disk) (later : Tree)
    → IsTracked d.home p
    → get p d.home.files ≡ some c
    → (r : Disk) × (restore_snapshot (record (snapshot_current_state now d) { home = later })
        ≡ some r)
      × (get p r.home.files ≡ some c)
unfolding copied
restore-snapshot now p c d later tracked there =
    let e = record (snapshot_current_state now d) { home = later } in
    let (r, done, holds_c) = get-restored e p (has_snapshot-after now d later) in
    (
      r,
      done,
      ground (
        arith,
        holds_c,
        get-snapshot now p c d tracked there,
        tracked_copied (snapshot_current_state now d).rollback p
            (snapshot-IsTracked now p c d tracked there),
      ),
    )

-- A restoration leaves every file that is not among those the rollback directory tracks as it is.
pub restore_snapshot-spares :
    (d r : Disk) (q : Text)
    → holds q (copied_paths d.rollback) ≡ false
    → restore_snapshot d ≡ some r
    → get q r.home.files ≡ get q d.home.files
unfolding restore_snapshot copy_tree copied
restore_snapshot-spares d r q h done = elim (Bool-cases (has_snapshot d)) [
  | inl kept ↦
      ground (
        arith,
        done,
        kept,
        h,
        get-copy_all (copied_paths d.rollback) q d.rollback.files d.home.files,
      )
  | inr none_kept ↦ ground (arith, done, none_kept)
]
