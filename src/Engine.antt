-- ===== src/Engine.antt =====
-- src/sync_engine.py: the execution of actions. The clock counts a fixed fraction of a second, in
-- which the echo window is `window`. The engine is one with an intent log, as src/main.py makes it.
pub mod Run
pub mod Site
pub mod Convert
pub mod Upload
pub mod Download
pub mod Deletion
pub mod Perform
pub mod Untouched
pub mod Edits
pub mod Published
pub mod Undelete
pub mod Dispatch
pub mod Queue
pub mod Changes
pub mod Replay
pub mod Conflicts
mod ConflictTests
pub mod Tests
mod SiteTests
mod DispatchTests
use obsidian_sync.Base.{
  ℕ, zero, suc, ◌+◌, String, Bool, true, false, not, ◌&&◌, Option, none, some, List, [], ◌∷◌, ◌++◌,
  Dict, lookup, insert, remove, contains, leb, if◌then◌else◌, truthy_text, some_or, ◌==◌,
}
use obsidian_sync.Drive.{FileMeta, Change, DriveCall}
use obsidian_sync.Vault.{Vault}
use obsidian_sync.Trash.{Trash}
use obsidian_sync.State.{FileEntry, SyncState, remove_file}
use obsidian_sync.Reconcile.{same_md5}
use obsidian_sync.Reconcile.Remote.{path_by_drive_id, or_option, or_list}
use obsidian_sync.Reconcile.Actions.{
  SyncAction, upload_file, download_file, delete_remote_file, delete_local_file, rename_remote_file,
  conflict_files, Reason, local_created, local_modified, local_deleted, remote_removed,
  remote_modified, remote_new,
}
use obsidian_sync.Reconcile.Incremental.{has_id}
use obsidian_sync.Intent.{Log, record_intent, resolve}

pub record Engine : Type 0 where
  pub state : SyncState
  pub log : Log SyncAction
  pub lock : Bool
  pub pending : List SyncAction
  pub recent_local_writes : Dict ℕ
  pub recent_drive_writes : Dict ℕ
  pub vault : Vault
  pub trash : Trash
  -- the calls of the Drive client so far, the last one first
  pub calls : List DriveCall

-- `_mark_local_written` and `_mark_drive_written` on their dicts
unfoldable pub mark_written : ℕ → ℕ → String → Dict ℕ → Dict ℕ
mark_written window now key recent = insert key (now + window) recent

-- `_is_echo_local` and `_is_echo_drive`: an expired entry is dropped
unfoldable pub is_echo : ℕ → String → Dict ℕ → Dict ℕ × Bool
is_echo now key recent = elim (lookup key recent) [
  | none ↦ (recent, false)
  | some deadline ↦ if leb deadline now then (remove key recent, false) else (recent, true)
]

-- `_acquire_lock`
unfoldable pub acquire_lock : Engine → Engine × Bool
acquire_lock e = if e.lock then (e, false) else (record e { lock = true }, true)

unfoldable pub release_lock : Engine → Engine
release_lock e = record e { lock = false }

-- How a `_do_…` method ends: normally, with `TokenInvalidError`, with `DriveFileNotFoundError` and the
-- missing id, or with any other exception.
pub data Ending : Type 0 where
  done : Ending
  token_invalid : Ending
  not_found : String → Ending
  failed : Ending

-- `path_hint`
unfoldable pub path_hint : SyncAction → Option String
path_hint (upload_file path reason) = some path
path_hint (download_file id path reason) = some path
path_hint (delete_remote_file id path reason) = path
path_hint (delete_local_file path reason) = some path
path_hint (rename_remote_file old new_path) = none
path_hint (conflict_files path local remote winner reason) = some path

unfoldable pub has_drive_id : String → FileEntry → Bool
has_drive_id id e = elim e.drive_id [ none ↦ false | some d ↦ d == id ]

-- the paths whose entry has the drive id
unfoldable pub paths_of_drive_id : String → Dict FileEntry → List String
unfolding has_drive_id
paths_of_drive_id id [] = []
paths_of_drive_id id ((path, e) ∷ rest) =
    let paths = paths_of_drive_id id rest in if has_drive_id id e then path ∷ paths else paths

unfoldable pub remove_files : List String → SyncState → SyncState
remove_files [] s = s
remove_files (path ∷ paths) s = remove_files paths (remove_file path s)

-- the entry at the path hint, if it has the missing id
unfoldable pub hinted : String → SyncAction → SyncState → Option String
unfolding path_hint has_drive_id
hinted missing_id action s = elim (path_hint action) [
  | none ↦ none
  | some path ↦ elim (lookup path s.files) [
    | none ↦ none
    | some e ↦ if has_drive_id missing_id e then some path else none
  ]
]

unfoldable pub cleanup_missing_drive_id : String → SyncAction → SyncState → SyncState
unfolding hinted paths_of_drive_id remove_files
cleanup_missing_drive_id missing_id action s = elim (hinted missing_id action s) [
  | some path ↦ remove_file path s
  | none ↦ remove_files (paths_of_drive_id missing_id s.files) s
]

module _ (new_id : Log SyncAction → String) (perform : SyncAction → Engine → Engine × Ending)
    (now : Engine → ℕ) where
  -- what follows the `_do_…` method; `true` means that an exception is passed on
  unfoldable pub concluded : SyncAction → String → Engine → Ending → Engine × Bool
  unfolding cleanup_missing_drive_id
  concluded action id e done = (record e { log = resolve id e.log }, false)
  concluded action id e token_invalid = (e, true)
  concluded action id e (not_found missing_id) =
      (record e { state = cleanup_missing_drive_id missing_id action e.state }, false)
  concluded action id e failed = (e, false)

  unfoldable pub run_action : SyncAction → Engine → Engine × Bool
  unfolding concluded
  run_action action e =
      let id = new_id e.log in
      let (e', ending) = perform action (record e { log = record_intent id action e.log }) in
      concluded action id e' ending

  -- whether a queued download is the echo of an upload
  unfoldable pub suppressed : SyncAction → Engine → Engine × Bool
  unfolding is_echo
  suppressed (download_file id path reason) e =
      let (recent, echo) = is_echo (now e) (some_or id "") e.recent_drive_writes in
      (record e { recent_drive_writes = recent }, echo)
  suppressed _ e = (e, false)

  -- one turn of the loop
  unfoldable pub run_queued : SyncAction → Engine → Engine × Bool
  unfolding suppressed run_action
  run_queued action e =
      let (e', echo) = suppressed action e in
      let ran = run_action action e' in if echo then (e', false) else ran

  -- The loop over the queue, `queue` being the pending actions. It grows while it runs if `perform`
  -- adds to it; `none` if the fuel is too little.
  unfoldable pub drain : ℕ → List SyncAction → Engine → Option (Engine × Bool)
  unfolding run_queued
  drain fuel [] e = some (e, false)
  drain zero (action ∷ rest) e = none
  drain (suc n) (action ∷ rest) e =
      let (e', raised) = run_queued action (record e { pending = rest }) in
      let later = drain n e'.pending e' in if raised then some (e', true) else later

  -- the `finally` clause
  unfoldable pub released : Option (Engine × Bool) → Option (Engine × Bool)
  unfolding release_lock
  released none = none
  released (some (e, raised)) = some (release_lock e, raised)

  -- the engine, and whether `TokenInvalidError` is passed on
  unfoldable pub execute : ℕ → SyncAction → Engine → Option (Engine × Bool)
  unfolding acquire_lock run_action drain released
  execute fuel action e =
      let (locked, acquired) = acquire_lock e in
      let (e', raised) = run_action action locked in
      if acquired
      then released (if raised then some (e', true) else drain fuel e'.pending e')
      else some (record e { pending = e.pending ++ (action ∷ []) }, false)
