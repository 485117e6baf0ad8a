-- ===== src/Reconcile/Outcomes.antt =====
-- What `run` decides for the situations that the design names.
use obsidian_sync.Base.{
  String, true, false, ◌≡◌, ◌≢◌, refl, sym, ◌∙◌, ◌⊎◌, ap, subst, Option, none, some, Dict, lookup,
  pos, arith, inl, inr, first_chars, truthy_text,
}
use obsidian_sync.Vector.{lesser, VersionVector, compare, update}
use obsidian_sync.Vector.Order.{IsConcurrent}
use obsidian_sync.Vector.Update.{update_advances, compare-update, update-IsConcurrent}
use obsidian_sync.State.{FileEntry, SyncState}
use obsidian_sync.Reconcile.{
  upload, download, delete_local, decide, same_content, id_or_empty, resolve_conflict,
}
use obsidian_sync.Reconcile.Actions.{
  SyncAction, upload_file, delete_remote_file, delete_local_file, conflict_files, action_to_dict,
  version_greater, local_deleted_greater, remote_deleted_lesser,
}
use obsidian_sync.Reconcile.Local.{LocalChange, ChangeKind, deleted, modified, new}
use obsidian_sync.Reconcile.Remote.{
  RemoteInfo, RemoteKind, remote_info_to_entry, remote_pseudo_device,
}
use obsidian_sync.Reconcile.Incremental.{
  World, apply_decision, decide_incremental, changed_entry, local_side_of, remote_side_of,
  last_known_remote,
}
use obsidian_sync.Reconcile.Agree.{concurrent_decides}

abbrev pub removal : String → RemoteInfo
removal id = record { kind = RemoteKind.removed; file_id = id; file = none }

abbrev removed_entry : String → VersionVector → FileEntry
removed_entry id version = record {
  mtime = 0;
  size = pos 0;
  drive_id = some id;
  version = version;
  deleted = true;
  deleted_at = none;
  md5 = none;
}

decide_older_tombstone :
    (local remote : FileEntry)
    → same_content local remote ≡ false
    → compare local.version remote.version ≡ lesser
    → remote.deleted ≡ true
    → decide (some local) (some remote) ≡ delete_local
unfolding decide
decide_older_tombstone local remote differ older gone = ground arith

tombstone_differs :
    (local remote : FileEntry) → remote.deleted ≡ true → same_content local remote ≡ false
unfolding same_content
tombstone_differs local remote gone = ground arith

-- whether an action keeps a copy of the losing side
abbrev pub IsConflict : Option SyncAction → Type 0
IsConflict (some (conflict_files path local remote winner reason)) = Unit
IsConflict _ = ⊥

resolve_conflict_cases :
    (l r : FileEntry)
    → (resolve_conflict l r ≡ upload (some r))
      ⊎ (resolve_conflict l r ≡ download (id_or_empty r) (some l))
unfolding resolve_conflict
resolve_conflict_cases l r = ground arith

concurrent-IsConflict :
    (l r : FileEntry) (path : String) (s : SyncState)
    → same_content l r ≡ false
    → IsConcurrent (compare l.version r.version)
    → IsConflict (action_to_dict (decide (some l) (some r)) path (some l) (some r) s).0
unfolding decide action_to_dict
concurrent-IsConflict l r path s differ c =
    rw (differ, concurrent_decides (compare l.version r.version) l r c)
      (elim (resolve_conflict_cases l r) [ inl e ↦ rw e tt | inr e ↦ rw e tt ])

module _ (w : World) where
  no_remote :
      (local : FileEntry) (old : Option FileEntry)
      → local.deleted ≡ false
      → last_known_remote w (some local) old ≡ none
  unfolding last_known_remote
  no_remote local none live = refl
  no_remote local (some old) live = rw live

module _ (w : World) (path : String) (s : SyncState) (old_files new_files : Dict FileEntry) where
  -- a decision from its two sides
  pub by_sides :
      (change : Option LocalChange) (info : Option RemoteInfo) (local remote : Option FileEntry)
      {result : Option SyncAction × SyncState}
      → local_side_of w s.device_id path change old_files new_files ≡ local
      → remote_side_of w path local info old_files s.files ≡ remote
      → apply_decision w path local remote s ≡ result
      → decide_incremental w path change info old_files new_files s ≡ result
  unfolding decide_incremental
  by_sides change info local remote p q r =
      ap (λ l. apply_decision w path l (remote_side_of w path l info old_files s.files) s) p
      ∙ ap (λ x. apply_decision w path local x s) q
      ∙ r

  -- A file that was deleted while the program was off, and that the remote did not change, is
  -- deleted on the remote: it does not come back.
  pub deletion_is_propagated :
      (e : FileEntry) (id : String)
      → lookup path old_files ≡ some e
      → e.drive_id ≡ some id
      → truthy_text id ≡ true
      → decide_incremental w path
          (some (record { kind = deleted; entry = e }))
          none
          old_files
          new_files
          s
        ≡ (some (delete_remote_file (some id) (some path) local_deleted_greater), s)
  unfolding decide_incremental decide action_to_dict
  deletion_is_propagated e id known has_drive real =
      let newer = (update_advances e.version s.device_id (w.local_clock path)).0 in
      simp (known, has_drive, real, newer)

  -- A file that is new or was edited, with no remote change, is uploaded.
  pub edit_is_uploaded :
      (e : FileEntry) (k : ChangeKind)
      → k ≢ deleted
      → decide_incremental w path (some (record { kind = k; entry = e })) none old_files new_files s
        ≡ (some (upload_file path version_greater), s)
  unfolding decide_incremental decide action_to_dict
  edit_is_uploaded e new n = rw (
      no_remote w (changed_entry w s.device_id path (record { kind = new; entry = e }))
        (lookup path old_files) refl)
  edit_is_uploaded e modified n = rw (
      no_remote w (changed_entry w s.device_id path (record { kind = modified; entry = e }))
        (lookup path old_files) refl)
  edit_is_uploaded e deleted n = absurd (n refl)

  -- A file that the remote removed and nobody changed here is deleted here, if the scan took its
  -- version from the state.
  pub removal_is_followed :
      (e known : FileEntry) (id : String)
      → lookup path new_files ≡ some e
      → lookup path s.files ≡ some known
      → e.version ≡ known.version
      → decide_incremental w path none (some (removal id)) old_files new_files s
        ≡ (some (delete_local_file path remote_deleted_lesser), s)
  unfolding apply_decision action_to_dict remote_info_to_entry local_side_of remote_side_of
  removal_is_followed e known id scanned in_state same =
      let r = removed_entry id (update known.version remote_pseudo_device (w.remote_clock path)) in
      let older = compare-update known.version remote_pseudo_device (w.remote_clock path) in
      by_sides none (some (removal id)) (some e) (some r) (rw (scanned, local_side_of))
        (rw (in_state, remote_info_to_entry))
        (rw (
          decide_older_tombstone e r (tombstone_differs e r refl)
            (ap (λ v. compare v r.version) same ∙ older) refl))

  -- A file that the remote removed and that was edited here is a conflict, and is not deleted, if
  -- the device's prefix is not the pseudo device.
  pub removal_of_edited-IsConflict :
      (e known : FileEntry) (id : String)
      → lookup path s.files ≡ some known
      → e.version ≡ known.version
      → first_chars 8 s.device_id ≢ first_chars 8 remote_pseudo_device
      → IsConflict
          (decide_incremental w path
            (some (record { kind = modified; entry = e }))
            (some (removal id))
            old_files
            new_files
            s).0
  unfolding apply_decision remote_info_to_entry local_side_of remote_side_of
  removal_of_edited-IsConflict e known id in_state same n =
      let l = changed_entry w s.device_id path (record { kind = modified; entry = e }) in
      let r = removed_entry id (update known.version remote_pseudo_device (w.remote_clock path)) in
      let apart =
        update-IsConcurrent known.version s.device_id remote_pseudo_device (w.local_clock path)
          (w.remote_clock path) n in
      subst (λ x. IsConflict x.0)
        (sym (
          by_sides (some (record { kind = modified; entry = e })) (some (removal id)) (some l)
            (some r) refl (rw (in_state, remote_info_to_entry)) refl))
        (concurrent-IsConflict l r path s (tombstone_differs l r refl) (
          subst (λ v. IsConcurrent (compare (update v s.device_id (w.local_clock path)) r.version))
            (sym same) apart))
