-- ===== src/Reconcile/Incremental.antt =====
-- `Reconciler.run`: incremental reconciliation. The scan of the vault and the answer of the Changes
-- API are arguments, as are the clock, the hash of a vault file, and the date parser.
use obsidian_sync.Base.{
  ℕ, String, Bool, true, false, ◌&&◌, Option, none, some, List, [], ◌∷◌, ℤ, Dict, lookup, keys,
  union, if◌then◌else◌, sort_texts, truthy_text,
}
use obsidian_sync.Vector.{update}
use obsidian_sync.Drive.{Change}
use obsidian_sync.State.{FileEntry, SyncState, new_entry}
use obsidian_sync.Reconcile.{decide}
use obsidian_sync.Reconcile.Local.{LocalChange, deleted, detect_local_changes}
use obsidian_sync.Reconcile.Actions.{SyncAction, action_to_dict}
use obsidian_sync.Reconcile.Remote.{RemoteInfo, classify_changes, remote_info_to_entry}

-- What the reconciler asks of the world. The clock is read at most twice for a path, once for each
-- side.
pub record World : Type 0 where
  pub should_ignore : String → Bool
  pub resolve_vault_rel_path : List String → String → Option String
  pub compute_md5 : String → Option String
  pub parse_date : String → Option ℕ
  pub local_clock : String → ℤ
  pub remote_clock : String → ℤ

-- `bool(drive_id)`
unfoldable pub has_id : Option String → Bool
has_id none = false
has_id (some id) = truthy_text id

module _ (w : World) where
  -- the local side of a changed path
  unfoldable pub changed_entry : String → String → LocalChange → FileEntry
  unfolding new_entry
  changed_entry device_id path change =
      let e = change.entry in
      let version = update e.version device_id (w.local_clock path) in
      elim change.kind [
        | deleted ↦ record (new_entry e.mtime e.size) {
          drive_id = e.drive_id;
          version = version;
          deleted = true;
        }
        | _ ↦ record (new_entry e.mtime e.size) {
          drive_id = e.drive_id;
          version = version;
          md5 = w.compute_md5 path;
        }
      ]

  -- the local side: the change, or else the entry of the scan or of the old state
  unfoldable pub local_side_of :
      String → String → Option LocalChange → Dict FileEntry → Dict FileEntry → Option FileEntry
  unfolding changed_entry
  local_side_of device_id path (some change) old_files new_files =
      some (changed_entry device_id path change)
  local_side_of device_id path none old_files new_files = elim (lookup path new_files) [
    | none ↦ lookup path old_files
    | some e ↦ some e
  ]

  -- a local deletion with no remote change: the remote is in the state that was last known
  unfoldable pub last_known_remote : Option FileEntry → Option FileEntry → Option FileEntry
  unfolding has_id new_entry
  last_known_remote none old = none
  last_known_remote (some local) none = none
  last_known_remote (some local) (some old) =
      if local.deleted && has_id local.drive_id && has_id old.drive_id
      then some
          (record (new_entry old.mtime old.size) { drive_id = old.drive_id; version = old.version })
      else none

  unfoldable pub remote_side_of :
      String
      → Option FileEntry
      → Option RemoteInfo
      → Dict FileEntry
      → Dict FileEntry
      → Option FileEntry
  unfolding last_known_remote
  remote_side_of path local (some info) old files =
      remote_info_to_entry w.parse_date (w.remote_clock path) files info path
  remote_side_of path local none old files = last_known_remote local (lookup path old)

  -- `None` when neither side has the path
  unfoldable pub apply_decision :
      String → Option FileEntry → Option FileEntry → SyncState → Option SyncAction × SyncState
  apply_decision path none none s = (none, s)
  apply_decision path local remote s = action_to_dict (decide local remote) path local remote s

  unfoldable pub decide_incremental :
      String
      → Option LocalChange
      → Option RemoteInfo
      → Dict FileEntry
      → Dict FileEntry
      → SyncState
      → Option SyncAction × SyncState
  unfolding local_side_of remote_side_of apply_decision
  decide_incremental path change info old_files new_files s =
      let local = local_side_of s.device_id path change old_files new_files in
      let remote = remote_side_of path local info old_files s.files in
      apply_decision path local remote s

  -- the loop over the sorted paths
  unfoldable pub decide_paths :
      Dict LocalChange
      → Dict RemoteInfo
      → Dict FileEntry
      → Dict FileEntry
      → List String
      → SyncState
      → List SyncAction × SyncState
  decide_paths changes infos old_files new_files [] s = ([], s)
  decide_paths changes infos old_files new_files (path ∷ paths) s =
      let step : Option SyncAction × SyncState =
        if w.should_ignore path
        then (none, s)
        else decide_incremental path (lookup path changes) (lookup path infos) old_files new_files
            s in
      let (actions, s') = decide_paths changes infos old_files new_files paths step.1 in
      (elim step.0 [ none ↦ actions | some action ↦ action ∷ actions ], s')

  -- the remote changes and the new token; without a token the API is not asked
  unfoldable pub classify_remote :
      SyncState → List Change × Option String → Dict RemoteInfo × Option String
  unfolding has_id
  classify_remote s answer =
      if has_id s.page_token
      then (classify_changes w.should_ignore w.resolve_vault_rel_path s.files [] answer.0, answer.1)
      else ([], none)

  unfoldable pub run :
      Dict FileEntry → List Change × Option String → SyncState → List SyncAction × SyncState
  unfolding classify_remote decide_paths
  run scanned answer s =
      let changes = detect_local_changes s.files scanned in
      let (infos, new_token) = classify_remote s answer in
      let paths = sort_texts (union (keys changes) (keys infos)) in
      let (actions, s') = decide_paths changes infos s.files scanned paths s in
      (actions, if has_id new_token then record s' { page_token = new_token } else s')
