-- ===== src/Engine/Upload.antt =====
-- `SyncEngine._do_upload`.
use obsidian_sync.Base.{
  String, Bool, false, not, ◌&&◌, Option, none, some, lookup, if◌then◌else◌, eqb_ℤ,
}
use obsidian_sync.Codec.{encode}
use obsidian_sync.Drive.{find_file_by_rel_path, upload_file}
use obsidian_sync.Vault.{LocalFile}
use obsidian_sync.State.{FileEntry, new_entry}
use obsidian_sync.Reconcile.{same_md5}
use obsidian_sync.Reconcile.Remote.{or_option}
use obsidian_sync.Engine.{Engine, Ending, done}
use obsidian_sync.Engine.Site.{
  Site, answer, raises, UploadResult, ending_of, next_version, mark_drive_written, record_entry,
  called,
}

-- whether the state already has this content and size
unfoldable pub is_upload_echo : Option FileEntry → LocalFile → Option String → Bool
unfolding same_md5
is_upload_echo none f md5 = false
is_upload_echo (some e) f md5 = same_md5 e.md5 md5 && eqb_ℤ e.size f.size && not e.deleted

abbrev pub drive_id_of : Option FileEntry → Option String
drive_id_of none = none
drive_id_of (some e) = e.drive_id

module _ (site : Site) where
  -- the id to reuse, and the engine after the Drive was asked for it
  unfoldable pub upload_target : String → Option String → Engine → Engine × Option String
  unfolding called
  upload_target path none e =
      (called (find_file_by_rel_path path) e, site.find_file_by_rel_path e.calls path)
  upload_target path (some id) e = (e, some id)

  -- the entry after the upload
  unfoldable pub uploaded_entry : LocalFile → Option FileEntry → UploadResult → Engine → FileEntry
  unfolding new_entry next_version or_option
  uploaded_entry f existing r e = record (new_entry f.mtime f.size) {
    drive_id = some r.id;
    version = next_version site existing e;
    md5 = or_option r.md5_checksum (site.compute_md5 f);
  }

  -- the part from the new version on
  unfoldable pub send :
      String → LocalFile → Option FileEntry → Option String → Engine → Engine × Ending
  unfolding called record_entry mark_drive_written next_version
  send path f existing id e =
      let props = encode (next_version site existing e) false (site.compute_md5 f) in
      let e' = called (upload_file f.content path id props) e in
      elim (site.upload e.calls f path id props) [
        | raises failure ↦ (e', ending_of failure)
        | answer r ↦ (
          mark_drive_written site r.id (record_entry path (uploaded_entry f existing r e) e'),
          done,
        )
      ]

  unfoldable pub do_upload : String → Engine → Engine × Ending
  unfolding is_upload_echo upload_target send
  do_upload path e = elim (lookup path e.vault) [
    | none ↦ (e, done)
    | some f ↦
        let existing = lookup path e.state.files in
        let (e', id) = upload_target path (drive_id_of existing) e in
        if is_upload_echo existing f (site.compute_md5 f)
        then (e, done)
        else send path f existing id e'
  ]
