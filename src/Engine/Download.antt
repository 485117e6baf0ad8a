-- ===== src/Engine/Download.antt =====
-- `SyncEngine._do_download`.
use obsidian_sync.Base.{String, ◌&&◌, Option, none, some, lookup, insert, if◌then◌else◌}
use obsidian_sync.Vector.{VersionVector, non_empty}
use obsidian_sync.Codec.{decode}
use obsidian_sync.Drive.{get_file_metadata, download_file}
use obsidian_sync.Vault.{LocalFile}
use obsidian_sync.Conflict.{resolve_files}
use obsidian_sync.State.{FileEntry, new_entry}
use obsidian_sync.Reconcile.{same_md5}
use obsidian_sync.Reconcile.Remote.{or_option}
use obsidian_sync.Reconcile.Incremental.{has_id}
use obsidian_sync.Engine.{Engine, Ending, done}
use obsidian_sync.Engine.Convert.{state_md5}
use obsidian_sync.Engine.Site.{
  Site, FetchedMeta, unread, unlisted, fetched, ending_of, next_version, mark_local_written,
  record_entry, called,
}

-- what the comparison of the three hashes decides
pub data Guard : Type 0 where
  skip_equal refresh_state protect_edit copy_first proceed : Guard

-- the hashes of the local file, of the state and of the Drive
unfoldable pub download_guard : Option String → Option String → Option String → Guard
unfolding same_md5 has_id
download_guard local stored remote =
    let eq_state = same_md5 stored local in
    let eq_remote = same_md5 local remote in
    if has_id local && has_id remote
    then if eq_remote
      then if eq_state then skip_equal else refresh_state
      else if eq_state
      then proceed
      else if same_md5 stored remote
      then protect_edit
      else copy_first
    else proceed

-- the entry of a stale state
unfoldable pub refreshed_entry : Option String → LocalFile → Option String → FileEntry → FileEntry
unfolding new_entry or_option
refreshed_entry id f md5 entry = record (new_entry f.mtime f.size) {
  drive_id = or_option entry.drive_id id;
  version = entry.version;
  md5 = md5;
}

unfoldable pub refresh_entry : Option String → String → LocalFile → Option String → Engine → Engine
unfolding record_entry refreshed_entry
refresh_entry id path f md5 e = elim (lookup path e.state.files) [
  | none ↦ e
  | some entry ↦ record_entry path (refreshed_entry id f md5 entry) e
]

module _ (site : Site) where
  unfoldable pub downloaded_version : FetchedMeta → Option FileEntry → Engine → VersionVector
  unfolding decode non_empty next_version
  downloaded_version meta existing e =
      let remote = (decode meta.app_properties).0 in
      if non_empty remote then remote else next_version site existing e

  unfoldable pub downloaded_entry :
      Option String → LocalFile → FetchedMeta → Option FileEntry → Engine → FileEntry
  unfolding new_entry downloaded_version or_option decode
  downloaded_entry id f meta existing e = record (new_entry f.mtime f.size) {
    drive_id = id;
    version = downloaded_version meta existing e;
    md5 =
        or_option meta.md5_checksum (or_option (site.compute_md5 f) (decode meta.app_properties).2);
  }

  -- the part after the guard
  unfoldable pub fetch : Option String → String → Engine → Engine × Ending
  unfolding mark_local_written called record_entry downloaded_entry
  fetch id path e =
      let asked = called (download_file id) (mark_local_written site path e) in
      elim (site.download e.calls id) [
        | unread failure ↦ (asked, ending_of failure)
        | unlisted f failure ↦
            (record asked { vault = insert path f asked.vault }, ending_of failure)
        | fetched f meta ↦
            let written : Engine = record asked { vault = insert path f asked.vault } in
            let entry = downloaded_entry id f meta (lookup path written.state.files) written in
            (record_entry path entry written, done)
      ]

  -- a conflict copy, and then the download unless the copy failed
  unfoldable pub copy_and_fetch : Option String → String → Engine → Engine × Ending
  unfolding fetch
  copy_and_fetch id path e =
      let resolved = resolve_files (site.naming e) (site.copy_fails path) path e.vault in
      let e' : Engine = record e { vault = resolved.0 } in
      elim resolved.1 [ none ↦ (e', done) | some resolution ↦ fetch id path e' ]

  unfoldable pub guarded : Guard → Option String → String → LocalFile → Engine → Engine × Ending
  unfolding refresh_entry copy_and_fetch fetch
  guarded skip_equal id path f e = (e, done)
  guarded protect_edit id path f e = (e, done)
  guarded refresh_state id path f e = (refresh_entry id path f (site.compute_md5 f) e, done)
  guarded copy_first id path f e = copy_and_fetch id path e
  guarded proceed id path f e = fetch id path e

  unfoldable pub do_download : Option String → String → Engine → Engine × Ending
  unfolding called download_guard guarded fetch state_md5
  do_download id path e = elim (lookup path e.vault) [
    | none ↦ fetch id path e
    | some f ↦
        guarded
          (download_guard (site.compute_md5 f) (state_md5 path e.state) (site.get_md5 e.calls id))
          id path f (called (get_file_metadata id) e)
  ]
