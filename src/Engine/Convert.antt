-- ===== src/Engine/Convert.antt =====
-- `SyncEngine.handle_local_change` up to the call of `execute`, and `_change_to_action`.
use obsidian_sync.Base.{
  ℕ, String, Bool, ◌&&◌, Option, none, some, List, [], lookup, if◌then◌else◌, truthy_text, some_or,
}
use obsidian_sync.Drive.{FileMeta, Change}
use obsidian_sync.State.{SyncState}
use obsidian_sync.Reconcile.{same_md5}
use obsidian_sync.Reconcile.Remote.{path_by_drive_id, or_option}
use obsidian_sync.Reconcile.Actions.{
  SyncAction, upload_file, download_file, delete_remote_file, delete_local_file, local_created,
  local_modified, local_deleted, remote_removed, remote_modified, remote_new,
}
use obsidian_sync.Reconcile.Incremental.{has_id}
use obsidian_sync.Engine.{Engine, is_echo}

-- the events of the watcher
pub data EventType : Type 0 where
  created_event modified_event deleted_event other_event : EventType

-- the action of `handle_local_change` for an event that is no echo
unfoldable pub event_action : EventType → String → SyncState → Option SyncAction
event_action created_event path s = some (upload_file path local_created)
event_action modified_event path s = some (upload_file path local_modified)
event_action deleted_event path s = elim (lookup path s.files) [
  | none ↦ none
  | some e ↦ elim e.drive_id [
    | none ↦ none
    | some id ↦ some (delete_remote_file (some id) (some path) local_deleted)
  ]
]
event_action other_event path s = none

-- `handle_local_change` up to the call of `execute`
unfoldable pub local_change_to_action : ℕ → EventType → String → Engine → Engine × Option SyncAction
unfolding is_echo event_action
local_change_to_action now event path e =
    let (recent, echo) = is_echo now path e.recent_local_writes in
    (
      record e { recent_local_writes = recent },
      if echo then none else event_action event path e.state,
    )

-- the hash of a state entry
unfoldable pub state_md5 : String → SyncState → Option String
state_md5 path s = elim (lookup path s.files) [ none ↦ none | some e ↦ e.md5 ]

module _ (should_ignore : String → Bool)
    (resolve_vault_rel_path : List String → String → Option String) where
  -- a changed file that the state knows; an unchanged hash is the late report of an upload
  unfoldable pub known_file_action : String → String → FileMeta → SyncState → Option SyncAction
  unfolding or_option same_md5 state_md5 has_id
  known_file_action file_id path meta s =
      let remote_md5 = or_option meta.api_md5_checksum meta.md5 in
      if should_ignore path
      then none
      else if has_id remote_md5 && same_md5 (state_md5 path s) remote_md5
      then none
      else some (download_file (some file_id) path remote_modified)

  unfoldable pub new_file_action : String → String → Option (List String) → Option SyncAction
  new_file_action file_id name parents = elim (resolve_vault_rel_path (some_or parents []) name) [
    | none ↦ none
    | some path ↦
        if should_ignore path then none else some (download_file (some file_id) path remote_new)
  ]

  -- a change with its file
  unfoldable pub present_action : Change → FileMeta → SyncState → Option SyncAction
  unfolding known_file_action new_file_action path_by_drive_id
  present_action change meta s = elim meta.name [
    | none ↦ none
    | some name ↦
        if truthy_text name
        then elim (path_by_drive_id s.files change.file_id) [
          | some path ↦ known_file_action change.file_id path meta s
          | none ↦ new_file_action change.file_id name change.parents
        ]
        else none
  ]

  -- `_change_to_action` after the echo test
  unfoldable pub change_action : Change → SyncState → Option SyncAction
  unfolding present_action path_by_drive_id
  change_action change s =
      if change.removed
      then elim (path_by_drive_id s.files change.file_id) [
        | none ↦ none
        | some path ↦ some (delete_local_file path remote_removed)
      ]
      else elim change.file [ none ↦ none | some meta ↦ present_action change meta s ]

  unfoldable pub change_to_action : ℕ → Change → Engine → Engine × Option SyncAction
  unfolding is_echo change_action
  change_to_action now change e =
      let (recent, echo) = is_echo now change.file_id e.recent_drive_writes in
      (
        record e { recent_drive_writes = recent },
        if echo then none else change_action change e.state,
      )
