-- ===== src/Engine/Perform.antt =====
-- `SyncEngine._do_rename_remote`, `_do_conflict`, and the choice of the method for an action.
use obsidian_sync.Base.{String, none, some, lookup, if◌then◌else◌}
use obsidian_sync.Drive.{rename_file}
use obsidian_sync.Conflict.{resolve_files}
use obsidian_sync.State.{FileEntry, remove_file}
use obsidian_sync.Reconcile.Actions.{
  Info, SyncAction, upload_file, download_file, delete_remote_file, delete_local_file,
  rename_remote_file, conflict_files,
}
use obsidian_sync.Reconcile.Incremental.{has_id}
use obsidian_sync.Engine.{Engine, Ending, done, failed}
use obsidian_sync.Engine.Site.{Site, ending_of, record_entry, called}
use obsidian_sync.Engine.Upload.{do_upload}
use obsidian_sync.Engine.Download.{do_download}
use obsidian_sync.Engine.Deletion.{do_delete_remote, do_delete_local}

-- `last_part` is `rsplit("/", 1)[-1]`.
module _ (last_part : String → String) (site : Site) where
  unfoldable pub rename_entry : String → String → FileEntry → Engine → Engine
  unfolding record_entry remove_file
  rename_entry old_path new_path entry e =
      record_entry new_path entry (record e { state = remove_file old_path e.state })

  unfoldable pub send_rename : String → String → String → FileEntry → Engine → Engine × Ending
  unfolding called rename_entry
  send_rename old_path new_path id entry e =
      let asked = called (rename_file id (last_part new_path)) e in
      elim (site.rename e.calls id (last_part new_path)) [
        | some failure ↦ (asked, ending_of failure)
        | none ↦ (rename_entry old_path new_path entry asked, done)
      ]

  unfoldable pub do_rename_remote : String → String → Engine → Engine × Ending
  unfolding send_rename
  do_rename_remote old_path new_path e = elim (lookup old_path e.state.files) [
    | none ↦ (e, done)
    | some entry ↦ elim entry.drive_id [
      | none ↦ (e, done)
      | some id ↦ send_rename old_path new_path id entry e
    ]
  ]

  unfoldable pub do_conflict : String → Info → Engine → Engine × Ending
  unfolding resolve_files do_download has_id
  do_conflict path remote e =
      let resolved = resolve_files (site.naming e) (site.copy_fails path) path e.vault in
      let e' : Engine = record e { vault = resolved.0 } in
      elim resolved.1 [
        | none ↦ (e', failed)
        | some resolution ↦
            let downloaded = do_download site remote.file_id path e' in
            if has_id remote.file_id then downloaded else (e', done)
      ]

  -- the method for the type of the action
  unfoldable pub perform : SyncAction → Engine → Engine × Ending
  unfolding do_upload do_download do_delete_remote do_delete_local do_rename_remote do_conflict
  perform (upload_file path reason) e = do_upload site path e
  perform (download_file id path reason) e = do_download site id path e
  perform (delete_remote_file id path reason) e = do_delete_remote site id path e
  perform (delete_local_file path reason) e = do_delete_local site path e
  perform (rename_remote_file old_path new_path) e = do_rename_remote old_path new_path e
  perform (conflict_files path local remote winner reason) e = do_conflict path remote e
