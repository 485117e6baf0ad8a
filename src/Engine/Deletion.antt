-- ===== src/Engine/Deletion.antt =====
-- `SyncEngine._do_delete_remote` and `_do_delete_local`.
use obsidian_sync.Base.{
  ℕ, String, ℤ, pos, Bool, true, false, Option, none, some, lookup, remove, if◌then◌else◌,
}
use obsidian_sync.Codec.{encode}
use obsidian_sync.Drive.{move_to_tombstones, hard_delete}
use obsidian_sync.Trash.{move}
use obsidian_sync.State.{FileEntry, new_entry}
use obsidian_sync.Engine.{Engine, Ending, done}
use obsidian_sync.Engine.Convert.{state_md5}
use obsidian_sync.Engine.Site.{
  Site, ending_of, next_version, mark_local_written, record_entry, called,
}
use obsidian_sync.Engine.Upload.{drive_id_of}

abbrev pub mtime_or_zero : Option FileEntry → ℕ
mtime_or_zero none = 0
mtime_or_zero (some entry) = entry.mtime

abbrev pub size_or_zero : Option FileEntry → ℤ
size_or_zero none = pos 0
size_or_zero (some entry) = entry.size

module _ (site : Site) where
  -- the entry of a deleted file
  unfoldable pub deleted_entry : Option String → Option FileEntry → Engine → FileEntry
  unfolding new_entry next_version
  deleted_entry id existing e =
      record (new_entry (mtime_or_zero existing) (size_or_zero existing)) {
        drive_id = id;
        version = next_version site existing e;
        deleted = true;
        deleted_at = some (site.wall e);
      }

  unfoldable pub do_delete_remote : Option String → Option String → Engine → Engine × Ending
  unfolding next_version called record_entry deleted_entry
  do_delete_remote id (some path) e =
      let existing = lookup path e.state.files in
      let props = encode (next_version site existing e) true none in
      let asked = called (move_to_tombstones id props) e in
      elim (site.move_to_tombstones e.calls id props) [
        | some failure ↦ (asked, ending_of failure)
        | none ↦ (record_entry path (deleted_entry id existing e) asked, done)
      ]
  do_delete_remote id none e = (
    called (hard_delete id) e,
    elim (site.hard_delete e.calls id) [ none ↦ done | some failure ↦ ending_of failure ],
  )

  -- `unlink`, and whether it succeeds
  unfoldable pub unlink : String → Engine → Engine × Bool
  unlink path e = elim (lookup path e.vault) [
    | none ↦ (e, false)
    | some f ↦
        if site.unlink_fails path
        then (e, false)
        else (record e { vault = remove path e.vault }, true)
  ]

  unfoldable pub move_to_trash : String → Engine → Engine × Bool
  unfolding move state_md5 unlink
  move_to_trash path e = elim site.trash_fault [
    | none ↦ unlink path e
    | some fault ↦
        let moved =
          move (fault path) (site.new_trash_id e.trash) (site.wall e) path (state_md5 path e.state)
            e.vault e.trash in
        let e' : Engine = record e { vault = moved.vault; trash = moved.trash } in
        if moved.raised then unlink path e' else (e', true)
  ]

  unfoldable pub mark_deleted : String → Engine → Engine
  unfolding record_entry deleted_entry
  mark_deleted path e =
      let existing = lookup path e.state.files in
      record_entry path (deleted_entry (drive_id_of existing) existing e) e

  unfoldable pub do_delete_local : String → Engine → Engine × Ending
  unfolding mark_local_written move_to_trash mark_deleted
  do_delete_local path e =
      let marked = mark_local_written site path e in
      let moved : Engine × Bool = elim (lookup path marked.vault) [
        | none ↦ (marked, true)
        | some f ↦ move_to_trash path marked
      ] in
      (if moved.1 then mark_deleted path moved.0 else moved.0, done)
