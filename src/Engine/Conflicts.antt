-- ===== src/Engine/Conflicts.antt =====
-- src/reconciler.py, src/sync_engine.py: what becomes of a conflict.
use obsidian_sync.Base.{
  String, false, ◌≡◌, refl, List, [], ◌∷◌, Option, some, inl, inr, if_intro, Option-cases, lookup,
  arith, ltb_ℤ, lt_text, keys,
}
use obsidian_sync.Vector.{compare}
use obsidian_sync.Vector.Order.{IsConcurrent}
use obsidian_sync.Drive.{
  DriveCall, find_file_by_rel_path, upload_file, get_file_metadata, download_file,
  move_to_tombstones, hard_delete, rename_file,
}
use obsidian_sync.Vault.{LocalFile}
use obsidian_sync.Conflict.{resolve_files}
use obsidian_sync.State.{FileEntry, SyncState}
use obsidian_sync.Reconcile.{
  Action, upload, download, id_or_empty, max_key, resolve_conflict, same_content, decide,
}
use obsidian_sync.Reconcile.Decide.{highest_clock}
use obsidian_sync.Reconcile.Agree.{concurrent_decides}
use obsidian_sync.Reconcile.Incremental.{has_id}
use obsidian_sync.Reconcile.Actions.{
  Info, Winner, Reason, SyncAction, conflict_files, local_side, remote_side, version_greater,
  version_lesser, entry_to_info, action_to_dict,
}
use obsidian_sync.Engine.{Engine, Ending}
use obsidian_sync.Engine.Convert.{state_md5}
use obsidian_sync.Engine.Site.{Site, called, record_entry, mark_local_written}
use obsidian_sync.Engine.Download.{
  Guard, skip_equal, refresh_state, protect_edit, copy_first, proceed, download_guard,
  refresh_entry, fetch, copy_and_fetch, guarded, do_download,
}
use obsidian_sync.Engine.Perform.{do_conflict, perform}

-- the uploads among the calls
abbrev pub uploads : List DriveCall → List DriveCall
uploads [] = []
uploads (find_file_by_rel_path path ∷ calls) = uploads calls
uploads (upload_file content path id props ∷ calls) =
    upload_file content path id props ∷ uploads calls
uploads (get_file_metadata id ∷ calls) = uploads calls
uploads (download_file id ∷ calls) = uploads calls
uploads (move_to_tombstones id props ∷ calls) = uploads calls
uploads (hard_delete id ∷ calls) = uploads calls
uploads (rename_file id name ∷ calls) = uploads calls

module _ (site : Site) where
  fetch-uploads :
      (id : Option String) (path : String) (e : Engine)
      → uploads (fetch site id path e).0.calls ≡ uploads e.calls
  unfolding fetch called record_entry mark_local_written
  fetch-uploads id path e = ground arith

  copy_and_fetch-uploads :
      (id : Option String) (path : String) (e : Engine)
      → uploads (copy_and_fetch site id path e).0.calls ≡ uploads e.calls
  unfolding copy_and_fetch
  copy_and_fetch-uploads id path e =
      let resolved = resolve_files (site.naming e) (site.copy_fails path) path e.vault in
      elim (Option-cases resolved.1) [
        | inl failed ↦ rw (copy_and_fetch, failed) refl
        | inr (resolution, there) ↦
            rw (copy_and_fetch, there) (fetch-uploads id path (record e { vault = resolved.0 }))
      ]

  guarded-uploads :
      (guard : Guard) (id : Option String) (path : String) (f : LocalFile) (e : Engine)
      → uploads (guarded site guard id path f e).0.calls ≡ uploads e.calls
  unfolding guarded refresh_entry record_entry
  guarded-uploads skip_equal id path f e = refl
  guarded-uploads refresh_state id path f e = ground arith
  guarded-uploads protect_edit id path f e = refl
  guarded-uploads copy_first id path f e = copy_and_fetch-uploads id path e
  guarded-uploads proceed id path f e = fetch-uploads id path e

  do_download-uploads :
      (id : Option String) (path : String) (e : Engine)
      → uploads (do_download site id path e).0.calls ≡ uploads e.calls
  unfolding do_download called
  do_download-uploads id path e = elim (Option-cases (lookup path e.vault)) [
    | inl absent ↦ rw (do_download, absent) (fetch-uploads id path e)
    | inr (f, there) ↦
        rw (do_download, there)
          (guarded-uploads
            (download_guard (site.compute_md5 f) (state_md5 path e.state) (site.get_md5 e.calls id))
            id path f (called (get_file_metadata id) e))
  ]

  do_conflict-uploads :
      (last_part : String → String) (path : String) (remote : Info) (e : Engine)
      → uploads (do_conflict last_part site path remote e).0.calls ≡ uploads e.calls
  unfolding do_conflict
  do_conflict-uploads last_part path remote e =
      let resolved = resolve_files (site.naming e) (site.copy_fails path) path e.vault in
      elim (Option-cases resolved.1) [
        | inl failed ↦ rw (do_conflict, failed) refl
        | inr (resolution, there) ↦
            rw (do_conflict, there)
              (if_intro (λ (r : Engine × Ending). uploads r.0.calls ≡ uploads e.calls)
                (has_id remote.file_id) _ _
                (λ _. do_download-uploads remote.file_id path (record e { vault = resolved.0 }))
                (λ _. refl))
      ]

-- the conflict dict of two files
abbrev pub conflict_of : String → FileEntry → FileEntry → Winner → Reason → SyncAction
conflict_of path a b winner reason =
    conflict_files path (entry_to_info (some a)) (entry_to_info (some b)) (some winner) reason

-- an action is turned into a conflict dict
IsConflictDict : String → FileEntry → FileEntry → SyncState → Action → Type 0
IsConflictDict path a b s x =
    (winner : Winner) × (reason : Reason) × ((action_to_dict x path (some a) (some b) s).0
      ≡ some (conflict_of path a b winner reason))

resolve_conflict-IsConflictDict :
    (path : String) (a b : FileEntry) (s : SyncState)
    → IsConflictDict path a b s (resolve_conflict a b)
unfolding resolve_conflict action_to_dict IsConflictDict
resolve_conflict-IsConflictDict path a b s =
    if_intro P (ltb_ℤ (highest_clock b) (highest_clock a)) _ _ (λ _. local)
      (λ _.
        if_intro P (ltb_ℤ (highest_clock a) (highest_clock b)) _ _ (λ _. remote)
          (λ _.
            if_intro P
              (lt_text (max_key (keys b.version.counters)) (max_key (keys a.version.counters))) _ _
              (λ _. remote) (λ _. local)))
  where
    P : Action → Type 0
    P x = IsConflictDict path a b s x

    local : P (upload (some b))
    local = (local_side, version_greater, refl)

    remote : P (download (id_or_empty b) (some a))
    remote = (remote_side, version_lesser, refl)

-- Two files in conflict, of different content: whichever side is named the winner, the local one
-- included, the device's action is a conflict of the two, and executing it uploads nothing.
pub conflict_uploads_nothing :
    (last_part : String → String) (site : Site) (path : String) (a b : FileEntry) (s : SyncState)
    (e : Engine)
    → IsConcurrent (compare a.version b.version)
    → same_content a b ≡ false
    → (winner : Winner) × (reason : Reason) × ((action_to_dict
          (decide (some a) (some b))
          path
          (some a)
          (some b)
          s).0
        ≡ some (conflict_of path a b winner reason))
      × (uploads (perform last_part site (conflict_of path a b winner reason) e).0.calls
          ≡ uploads e.calls)
unfolding decide perform IsConflictDict
conflict_uploads_nothing last_part site path a b s e concurrent differ =
    let (winner, reason, h) = resolve_conflict-IsConflictDict path a b s in
    (
      winner,
      reason,
      rw (differ, concurrent_decides (compare a.version b.version) a b concurrent) h,
      do_conflict-uploads site last_part path (entry_to_info (some b)) e,
    )
