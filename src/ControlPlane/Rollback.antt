-- ===== src/ControlPlane/Rollback.antt =====
-- packages/lib/src/control-plane/rollback.ts: the snapshot of the live files and its restoration.
-- A directory tree is its files by path, relative to the home or the rollback directory, and the
-- directories under stack/addons; file calls that fail are left out.
pub mod Restores
pub mod Tests
use openpalm.Base.{
  ℕ, ◌++◌, Bool, true, false, not, List, [], ◌∷◌, Option, none, some, Text, text_eq, codes, Map,
  get, set, has, map, trim, any_by, if◌then◌else◌, ◌==◌,
}

pub record Tree : Type 0 where
  pub files : Map Text Text
  pub addons : List Text

-- The home directory and the rollback directory.
pub record Disk : Type 0 where
  pub home : Tree
  pub rollback : Tree

abbrev pub snapshot_files : List Text
snapshot_files = codes "vault/stack/stack.env" ∷ codes "vault/stack/guardian.env" ∷ []

abbrev pub core_compose : Text
core_compose = codes "stack/core.compose.yml"

abbrev pub addon_compose : Text → Text
addon_compose name = codes "stack/addons/" ++ (name ++ codes "/compose.yml")

abbrev pub timestamp_file : Text
timestamp_file = codes ".snapshot-ts"

-- The file is copied if it is there.
unfoldable pub safe_copy : Text → Map Text Text → Map Text Text → Map Text Text
safe_copy path src dest = elim (get path src) [ none ↦ dest | some content ↦ set path content dest ]

unfoldable pub copy_all : List Text → Map Text Text → Map Text Text → Map Text Text
copy_all [] src dest = dest
copy_all (path ∷ paths) src dest = copy_all paths src (safe_copy path src dest)

abbrev pub holds : Text → List Text → Bool
holds name names = any_by (λ n. n == name) names

-- A copied addon brings its directory with it.
unfoldable pub copy_dirs : List Text → Map Text Text → List Text → List Text
copy_dirs [] src dest = dest
copy_dirs (name ∷ names) src dest = copy_dirs names src (
    if has (addon_compose name) src
    then (if holds name dest then dest else dest ++ name ∷ [])
    else dest)

-- The paths that a copy of the tree goes through, in the order of the source.
abbrev pub copied_paths : Tree → List Text
copied_paths t = snapshot_files ++ core_compose ∷ map addon_compose t.addons

unfoldable pub copy_tree : Tree → Tree → Tree
copy_tree src dest = record {
  files = copy_all (copied_paths src) src.files dest.files;
  addons = copy_dirs src.addons src.files dest.addons;
}

-- `now` is the line that the marker holds.
unfoldable pub snapshot_current_state : Text → Disk → Disk
snapshot_current_state now d =
    let kept = copy_tree d.home d.rollback in
    record d { rollback = record kept { files = set timestamp_file now kept.files } }

unfoldable pub has_snapshot : Disk → Bool
has_snapshot d = has timestamp_file d.rollback.files

-- `none` where it throws.
unfoldable pub restore_snapshot : Disk → Option Disk
restore_snapshot d =
    if not (has_snapshot d) then none else some (record d { home = copy_tree d.rollback d.home })

unfoldable pub snapshot_timestamp : Disk → Option Text
snapshot_timestamp d = elim (get timestamp_file d.rollback.files) [
  | none ↦ none
  | some line ↦ some (trim line)
]
