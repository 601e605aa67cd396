-- ===== src/ControlPlane/Rollback/Tests.antt =====
-- The restoration on a home with one addon.
use openpalm.Base.{◌≡◌, inr, refl, [], ◌∷◌, none, some, Text, text_eq, codes, get, set, trim}
use openpalm.ControlPlane.Rollback.{
  Tree, Disk, addon_compose, safe_copy, copy_all, copy_tree, snapshot_current_state, has_snapshot,
  restore_snapshot, snapshot_timestamp,
}
use openpalm.ControlPlane.Rollback.Restores.{restore-snapshot}

abbrev chat_compose : Text
chat_compose = addon_compose (codes "chat")

abbrev home : Tree
home = record {
  files = (chat_compose, codes "services: {}") ∷ (codes "config/notes", codes "n") ∷ [];
  addons = codes "chat" ∷ [];
}

abbrev nothing : Tree
nothing = record { files = []; addons = [] }

abbrev disk : Disk
disk = record { home = home; rollback = nothing }

abbrev lost : Disk
lost = record (snapshot_current_state (codes "t0 ") disk) { home = nothing }

untracked_not_taken : get (codes "config/notes") lost.rollback.files ≡ none
unfolding snapshot_current_state get set copy_tree copy_all safe_copy
untracked_not_taken = refl

stamped : snapshot_timestamp lost ≡ some (codes "t0")
unfolding snapshot_timestamp snapshot_current_state trim get set copy_tree copy_all safe_copy
stamped = refl

nothing_to_restore : restore_snapshot disk ≡ none
unfolding restore_snapshot has_snapshot get
nothing_to_restore = refl

restore-snapshot_example :
    (r : Disk) × (restore_snapshot lost ≡ some r)
    × (get chat_compose r.home.files ≡ some (codes "services: {}"))
unfolding snapshot_current_state get
restore-snapshot_example =
    restore-snapshot (codes "t0 ") chat_compose (codes "services: {}") disk nothing
      (inr (codes "chat", refl, refl)) refl
