-- ===== src/Engine/Untouched.antt =====
-- The methods of the engine leave its queue, its lock and its log as they are.
use obsidian_sync.Base.{
  ℕ, ◌≤◌, length, ap, false, String, ◌≡◌, refl, Option, none, some, Bool, List, arith,
}
use obsidian_sync.Reconcile.Actions.{
  SyncAction, Info, upload_file, download_file, delete_remote_file, delete_local_file,
  rename_remote_file, conflict_files,
}
use obsidian_sync.Engine.{Engine, run_action, execute}
use obsidian_sync.Intent.{Log, get_unresolved}
use obsidian_sync.Engine.Run.{intents_after, IsNew, logged, run_action-intents}
use obsidian_sync.Engine.Queue.{Finishes, execute-Finishes}
use obsidian_sync.Engine.Site.{Site, mark_local_written, mark_drive_written, record_entry, called}
use obsidian_sync.Engine.Upload.{do_upload, send, upload_target}
use obsidian_sync.Engine.Download.{
  Guard, skip_equal, protect_edit, refresh_state, copy_first, proceed, do_download, fetch, guarded,
  copy_and_fetch, refresh_entry,
}
use obsidian_sync.Engine.Deletion.{
  do_delete_remote, do_delete_local, move_to_trash, unlink, mark_deleted,
}
use obsidian_sync.Engine.Perform.{do_rename_remote, do_conflict, perform, send_rename, rename_entry}
use obsidian_sync.Vault.{LocalFile}

-- what the loop over the queue keeps in the engine: the log, the queue and the lock
abbrev pub Loop : Type 0
Loop = Log SyncAction × List SyncAction × Bool

abbrev pub loop_of : Engine → Loop
loop_of e = (e.log, e.pending, e.lock)

module _ (site : Site) where
  do_upload-loop : (path : String) (e : Engine) → loop_of (do_upload site path e).0 ≡ loop_of e
  unfolding do_upload upload_target send called record_entry mark_drive_written
  do_upload-loop path e = ground arith

  fetch-loop :
      (id : Option String) (path : String) (e : Engine)
      → loop_of (fetch site id path e).0 ≡ loop_of e
  unfolding fetch called record_entry mark_local_written
  fetch-loop id path e = ground arith

  guarded-loop :
      (g : Guard) (id : Option String) (path : String) (f : LocalFile) (e : Engine)
      → loop_of (guarded site g id path f e).0 ≡ loop_of e
  unfolding guarded copy_and_fetch refresh_entry record_entry
  guarded-loop skip_equal id path f e = refl
  guarded-loop protect_edit id path f e = refl
  guarded-loop refresh_state id path f e = ground arith
  guarded-loop copy_first id path f e = ground (arith, fetch-loop id path)
  guarded-loop proceed id path f e = fetch-loop id path e

  do_download-loop :
      (id : Option String) (path : String) (e : Engine)
      → loop_of (do_download site id path e).0 ≡ loop_of e
  unfolding do_download called
  do_download-loop id path e = grind (arith, fetch-loop, guarded-loop)

  do_delete_remote-loop :
      (id path : Option String) (e : Engine)
      → loop_of (do_delete_remote site id path e).0 ≡ loop_of e
  unfolding do_delete_remote called record_entry
  do_delete_remote-loop id none e = refl
  do_delete_remote-loop id (some path) e = ground arith

  move_to_trash-loop :
      (path : String) (e : Engine) → loop_of (move_to_trash site path e).0 ≡ loop_of e
  unfolding move_to_trash unlink
  move_to_trash-loop path e = ground arith

  do_delete_local-loop :
      (path : String) (e : Engine) → loop_of (do_delete_local site path e).0 ≡ loop_of e
  unfolding do_delete_local mark_deleted record_entry mark_local_written
  do_delete_local-loop path e = ground (arith, move_to_trash-loop path)

  module _ (last_part : String → String) where
    do_rename_remote-loop :
        (old_path new_path : String) (e : Engine)
        → loop_of (do_rename_remote last_part site old_path new_path e).0 ≡ loop_of e
    unfolding do_rename_remote send_rename rename_entry record_entry called
    do_rename_remote-loop old_path new_path e = ground arith

    do_conflict-loop :
        (path : String) (remote : Info) (e : Engine)
        → loop_of (do_conflict last_part site path remote e).0 ≡ loop_of e
    unfolding do_conflict
    do_conflict-loop path remote e = ground (arith, do_download-loop remote.file_id path)

    -- No action changes the log, the queue or the lock.
    pub perform-loop :
        (action : SyncAction) (e : Engine) → loop_of (perform last_part site action e).0 ≡ loop_of e
    unfolding perform
    perform-loop (upload_file path reason) e = do_upload-loop path e
    perform-loop (download_file id path reason) e = do_download-loop id path e
    perform-loop (delete_remote_file id path reason) e = do_delete_remote-loop id path e
    perform-loop (delete_local_file path reason) e = do_delete_local-loop path e
    perform-loop (rename_remote_file old_path new_path) e =
        do_rename_remote-loop old_path new_path e
    perform-loop (conflict_files path local remote winner reason) e = do_conflict-loop path remote e

module _ (new_id : Log SyncAction → String) (last_part : String → String) (site : Site)
    (now : Engine → ℕ) where
  -- An action of the engine is in the log before it is executed. If the new id is in no line of the
  -- log, then afterwards the unresolved intents are as before if the action ended normally, and the
  -- action is the last of them if it ended with any exception.
  pub run_action-perform :
      (action : SyncAction) (e : Engine)
      → IsNew (new_id e.log) e.log
      → get_unresolved (run_action new_id (perform last_part site) now action e).0.log
        ≡ intents_after
            (perform last_part site action (logged new_id action e)).1
            (new_id e.log)
            action
            (get_unresolved e.log)
  run_action-perform action e fresh =
      run_action-intents new_id (perform last_part site) now
        (λ a e'. ap (λ l. l.0) (perform-loop site last_part a e')) action e fresh

  -- If the lock is free and the fuel is not less than the number of queued actions, then executing an
  -- action ends, the lock is free afterwards, and unless an exception is passed on, the queue is empty.
  pub execute-perform-Finishes :
      (fuel : ℕ) (action : SyncAction) (e : Engine)
      → e.lock ≡ false
      → length e.pending ≤ fuel
      → Finishes (execute new_id (perform last_part site) now fuel action e)
  execute-perform-Finishes fuel action e =
      execute-Finishes new_id (perform last_part site) now
        (λ a e'. ap (λ l. l.1) (perform-loop site last_part a e')) fuel action e
