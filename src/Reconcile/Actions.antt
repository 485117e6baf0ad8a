-- ===== src/Reconcile/Actions.antt =====
-- The actions that the engine executes, and `Reconciler._action_to_dict`.
use obsidian_sync.Base.{ℕ, String, true, Option, none, some, ℤ, pos, if◌then◌else◌, truthy_text}
use obsidian_sync.Vector.{VersionVector, non_empty}
use obsidian_sync.State.{FileEntry, SyncState, new_entry, update_file}
use obsidian_sync.Reconcile.{
  Action, no_op, upload, download, delete_remote, delete_local, update_vector_only,
  absorb_remote_tombstone,
}

-- the info dicts of a conflict; `none` is an absent key or a `None`
pub record Info : Type 0 where
  pub mtime : Option ℕ
  pub size : Option ℤ
  pub drive_id : Option String
  pub md5 : Option String
  pub file_id : Option String

pub data Winner : Type 0 where
  local_side remote_side : Winner

pub data Reason : Type 0 where
  version_greater version_lesser local_deleted_greater remote_deleted_lesser : Reason
  init_remote_only init_tombstone_wins init_local_only init_state_lost_conflict : Reason
  local_created local_modified local_deleted remote_removed remote_modified remote_new : Reason
  conflict_remote_wins : Reason

-- the action dicts, by their `type`
pub data SyncAction : Type 0 where
  upload_file : String → Reason → SyncAction
  download_file : Option String → String → Reason → SyncAction
  delete_remote_file : Option String → Option String → Reason → SyncAction
  delete_local_file : String → Reason → SyncAction
  rename_remote_file : String → String → SyncAction
  conflict_files : String → Info → Info → Option Winner → Reason → SyncAction

unfoldable pub no_info : Info
no_info = record { mtime = none; size = none; drive_id = none; md5 = none; file_id = none }

unfoldable pub entry_to_info : Option FileEntry → Info
unfolding no_info
entry_to_info none = no_info
entry_to_info (some e) = record {
  mtime = some e.mtime;
  size = some e.size;
  drive_id = e.drive_id;
  md5 = e.md5;
  file_id = e.drive_id;
}

-- `action.file_id or (remote_entry.drive_id if remote_entry else "")`
unfoldable pub file_id_or : String → Option FileEntry → Option String
file_id_or id remote =
    if truthy_text id then some id else elim remote [ none ↦ some "" | some r ↦ r.drive_id ]

-- `local_entry.drive_id or (remote_entry.drive_id if remote_entry else None)`
unfoldable pub drive_id_or : FileEntry → Option FileEntry → Option String
drive_id_or local remote =
    let other : Option String = elim remote [ none ↦ none | some r ↦ r.drive_id ] in
    elim local.drive_id [ none ↦ other | some id ↦ if truthy_text id then some id else other ]

-- the entry that a vector merge leaves
unfoldable pub merged_entry : FileEntry → Option FileEntry → VersionVector → FileEntry
unfolding drive_id_or new_entry
merged_entry local remote merged = record (new_entry local.mtime local.size) {
  drive_id = drive_id_or local remote;
  version = merged;
  md5 = local.md5;
}

-- the entry that an absorbed tombstone leaves
unfoldable pub tombstone_entry : Option String → VersionVector → FileEntry
unfolding new_entry
tombstone_entry drive_id version = record (new_entry 0 (pos 0)) {
  drive_id = drive_id;
  version = version;
  deleted = true;
}

unfoldable pub action_to_dict :
    Action
    → String
    → Option FileEntry
    → Option FileEntry
    → SyncState
    → Option SyncAction × SyncState
unfolding entry_to_info file_id_or merged_entry tombstone_entry
action_to_dict (no_op reason) path local remote s = (none, s)
action_to_dict (upload none) path local remote s = (some (upload_file path version_greater), s)
action_to_dict (upload (some copy)) path local remote s = (
  some (
      conflict_files path (entry_to_info local) (entry_to_info remote) (some local_side)
        version_greater),
  s,
)
action_to_dict (download id none) path local remote s =
    (some (download_file (file_id_or id remote) path version_lesser), s)
action_to_dict (download id (some copy)) path local remote s = (
  some (
      conflict_files path (entry_to_info local) (entry_to_info remote) (some remote_side)
        version_lesser),
  s,
)
action_to_dict (delete_remote id) path local remote s =
    (some (delete_remote_file (file_id_or id remote) (some path) local_deleted_greater), s)
action_to_dict delete_local path local remote s =
    (some (delete_local_file path remote_deleted_lesser), s)
action_to_dict (update_vector_only (some merged)) path (some local) remote s =
    (none, if non_empty merged then update_file path (merged_entry local remote merged) s else s)
action_to_dict (update_vector_only merged) path local remote s = (none, s)
action_to_dict (absorb_remote_tombstone none) path local remote s = (none, s)
action_to_dict (absorb_remote_tombstone (some r)) path local remote s =
    (none, update_file path (tombstone_entry r.drive_id r.version) s)
