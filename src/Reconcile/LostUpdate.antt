-- ===== src/Reconcile/LostUpdate.antt =====
-- A remote edit that comes through the Changes API, as `run` sees it. The client renames the keys
-- that the reconciler reads, so the remote side has no vector, no hash and no size.
use obsidian_sync.Base.{
  String, Bool, false, ◌≡◌, refl, ap, ◌∙◌, Option, none, some, Dict, lookup, pos, arith,
}
use obsidian_sync.Drive.{ApiFile, Change, normalized, file_payload}
use obsidian_sync.Codec.{decode}
use obsidian_sync.Vector.{empty, greater, compare}
use obsidian_sync.Vector.Order.{◌≤ⱽ◌, compare_iff}
use obsidian_sync.State.{FileEntry, SyncState}
use obsidian_sync.Reconcile.{upload, decide, same_content}
use obsidian_sync.Reconcile.Actions.{upload_file, version_greater, action_to_dict}
use obsidian_sync.Reconcile.Remote.{RemoteInfo, RemoteKind, remote_info_to_entry, present_entry}
use obsidian_sync.Reconcile.Incremental.{
  World, apply_decision, decide_incremental, local_side_of, remote_side_of,
}
use obsidian_sync.Reconcile.Outcomes.{by_sides}

-- a file that was edited on the remote, as the reconciler is told of it
abbrev pub reported : String → Change → RemoteInfo
reported id change = record { kind = RemoteKind.modified; file_id = id; file = change.file }

-- all that is left of the remote side
abbrev bare_entry : String → FileEntry
bare_entry id = record {
  mtime = 0;
  size = pos 0;
  drive_id = some id;
  version = empty;
  deleted = false;
  deleted_at = none;
  md5 = none;
}

normalized_file :
    (t : Option String) (id : String) (removed : Bool) (f : ApiFile)
    → (normalized t id removed f).removed ≡ false
    → (normalized t id removed f).file ≡ some (file_payload f)
unfolding normalized
normalized_file t id removed f there = rw there

present_entry-payload :
    (w : World) (id : String) (f : ApiFile)
    → present_entry w.parse_date id (some (file_payload f)) ≡ some (bare_entry id)
unfolding present_entry file_payload decode
present_entry-payload w id f = refl

decide_newer :
    (local remote : FileEntry)
    → same_content local remote ≡ false
    → compare local.version remote.version ≡ greater
    → local.deleted ≡ false
    → decide (some local) (some remote) ≡ upload none
unfolding decide
decide_newer local remote differ newer live = ground arith

no_md5_differs : (local remote : FileEntry) → remote.md5 ≡ none → same_content local remote ≡ false
unfolding same_content
no_md5_differs local remote none_there = ground arith

-- The remote's edit of a known file that did not change here, whose local vector has counted
-- something, is answered by an upload of the local version over it, whatever vector the edit carries.
pub remote_edit_is_overwritten :
    (w : World) (path : String) (s : SyncState) (old_files new_files : Dict FileEntry)
    (tombstones : Option String) (id : String) (removed : Bool) (f : ApiFile) (e : FileEntry)
    → (normalized tombstones id removed f).removed ≡ false
    → lookup path new_files ≡ some e
    → e.deleted ≡ false
    → empty ≤ⱽ e.version
    → ¬ (e.version ≤ⱽ empty)
    → decide_incremental w path none
        (some (reported id (normalized tombstones id removed f)))
        old_files
        new_files
        s
      ≡ (some (upload_file path version_greater), s)
unfolding apply_decision action_to_dict local_side_of remote_side_of remote_info_to_entry
remote_edit_is_overwritten w path s old_files new_files t id removed f e there scanned live ge ne =
    let r = bare_entry id in
    by_sides w path s old_files new_files none (some (reported id (normalized t id removed f)))
      (some e) (some r) (rw (scanned, local_side_of))
      (ap (present_entry w.parse_date id) (normalized_file t id removed f there)
        ∙ present_entry-payload w id f)
      (rw (
        decide_newer e r (no_md5_differs e r refl)
          ((compare_iff e.version empty greater).1 (ge, ne)) live))
