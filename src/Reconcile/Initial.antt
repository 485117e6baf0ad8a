-- ===== src/Reconcile/Initial.antt =====
-- `Reconciler.run_without_state`: reconciliation of the full list, after a first start or the loss of
-- the state file. The Drive's list and the scan of the vault are arguments.
use obsidian_sync.Base.{
  String, Bool, Option, none, some, List, [], ◌∷◌, pos, Dict, lookup, insert, keys, union,
  if◌then◌else◌, sort_texts, some_or,
}
use obsidian_sync.Vector.{lesser, VersionVector, compare, merge, non_empty}
use obsidian_sync.Codec.{decode}
use obsidian_sync.Drive.{ListedFile}
use obsidian_sync.State.{FileEntry, SyncState, new_entry}
use obsidian_sync.Reconcile.{decide, same_md5}
use obsidian_sync.Reconcile.Actions.{
  SyncAction, upload_file, download_file, delete_local_file, conflict_files, no_info,
  init_remote_only, init_tombstone_wins, init_local_only, init_state_lost_conflict, action_to_dict,
  tombstone_entry,
}
use obsidian_sync.Reconcile.Remote.{or_option, parse_rfc3339}
use obsidian_sync.Reconcile.Incremental.{World}

-- `self._state.files[path] = entry`, with no save
unfoldable pub set_file : String → FileEntry → SyncState → SyncState
set_file path entry s = record s { files = insert path entry s.files }

-- the first part of the answer of `decode`
unfoldable pub remote_vector : ListedFile → VersionVector
remote_vector item = (decode item.meta.api_app_properties).0

unfoldable pub is_tombstone : ListedFile → Bool
is_tombstone item = (decode item.meta.api_app_properties).1

-- `item.get("relative_path", item.get("name", ""))`
unfoldable pub listed_path : ListedFile → String
listed_path item = some_or item.relative_path (some_or item.meta.name "")

pub record Listing : Type 0 where
  pub remote_by_path : Dict ListedFile
  pub tombstone_by_path : Dict ListedFile

module _ (w : World) where
  -- the loop over the list: ignored paths are passed over, tombstones are kept apart
  unfoldable pub sort_listing : Listing → List ListedFile → Listing
  unfolding listed_path is_tombstone
  sort_listing l [] = l
  sort_listing l (item ∷ rest) =
      let path = listed_path item in
      sort_listing
        (if w.should_ignore path
          then l
          else if is_tombstone item
          then record l { tombstone_by_path = insert path item l.tombstone_by_path }
          else record l { remote_by_path = insert path item l.remote_by_path })
        rest

  -- branch 2: local only, maybe with a tombstone
  unfoldable pub decide_local_only :
      String → FileEntry → Option ListedFile → SyncState → Option SyncAction × SyncState
  unfolding remote_vector
  decide_local_only path local none s = (some (upload_file path init_local_only), s)
  decide_local_only path local (some tombstone) s =
      let remote_vv = remote_vector tombstone in
      let keep : Option SyncAction × SyncState = (some (upload_file path init_local_only), s) in
      if non_empty remote_vv
      then elim (compare local.version remote_vv) [
        | lesser ↦ (some (delete_local_file path init_tombstone_wins), s)
        | _ ↦ keep
      ]
      else keep

  -- the state's entry for a path that both sides have
  unfoldable pub registered : FileEntry → String → VersionVector → Option String → FileEntry
  unfolding new_entry
  registered local file_id version md5 = record (new_entry local.mtime local.size) {
    drive_id = some file_id;
    version = version;
    md5 = md5;
  }

  -- the conflict of branch 4
  unfoldable pub state_lost_conflict : String → FileEntry → String → Option String → SyncAction
  unfolding no_info
  state_lost_conflict path local file_id drive_md5 =
      conflict_files path (record no_info { mtime = some local.mtime; size = some local.size })
        (record no_info { file_id = some file_id; md5 = drive_md5 }) none init_state_lost_conflict

  -- both sides have the path, and their contents differ: the normal decision
  unfoldable pub decide_both_known :
      String
      → FileEntry
      → ListedFile
      → Option String
      → Option String
      → SyncState
      → Option SyncAction × SyncState
  unfolding parse_rfc3339 remote_vector new_entry registered set_file
  decide_both_known path local remote local_md5 drive_md5 s =
      let remote_entry =
        record (new_entry (parse_rfc3339 w.parse_date remote.meta.api_modified_time)
          (some_or remote.meta.api_size (pos 0))) {
            drive_id = some remote.id;
            version = remote_vector remote;
            md5 = drive_md5;
          } in
      let local_with_md5 = record (new_entry local.mtime local.size) {
        drive_id = or_option local.drive_id (some remote.id);
        version = local.version;
        md5 = local_md5;
      } in
      let (action, s') =
        action_to_dict (decide (some local_with_md5) (some remote_entry)) path (some local_with_md5)
          (some remote_entry) s in
      (action, set_file path (registered local remote.id local.version local_md5) s')

  -- branches 1 and 4, and the normal decision
  unfoldable pub decide_both :
      String → FileEntry → ListedFile → SyncState → Option SyncAction × SyncState
  unfolding decide_both_known state_lost_conflict registered set_file or_option remote_vector
  decide_both path local remote s =
      let remote_md5 = (decode remote.meta.api_app_properties).2 in
      let drive_md5 = or_option remote.meta.api_md5_checksum remote_md5 in
      let local_md5 = w.compute_md5 path in
      if same_md5 local_md5 drive_md5
      then (
        none,
        set_file path
            (registered local remote.id (merge local.version (remote_vector remote)) local_md5) s,
      )
      else if non_empty local.version
      then decide_both_known path local remote local_md5 drive_md5 s
      else (
        some (state_lost_conflict path local remote.id drive_md5),
        set_file path (registered local remote.id local.version local_md5) s,
      )

  -- branch 3: remote only
  unfoldable pub decide_remote_only :
      String → ListedFile → SyncState → Option SyncAction × SyncState
  unfolding set_file remote_vector new_entry
  decide_remote_only path remote s = (
    some (download_file (some remote.id) path init_remote_only),
    set_file path
        (record (new_entry 0 (pos 0)) {
          drive_id = some remote.id;
          version = remote_vector remote;
          md5 = (decode remote.meta.api_app_properties).2;
        })
        s,
  )

  -- branch 5: tombstone only
  unfoldable pub absorb_tombstone : String → ListedFile → SyncState → Option SyncAction × SyncState
  unfolding set_file remote_vector tombstone_entry
  absorb_tombstone path tombstone s =
      (none, set_file path (tombstone_entry (some tombstone.id) (remote_vector tombstone)) s)

  unfoldable pub decide_without_state :
      String
      → Option FileEntry
      → Option ListedFile
      → Option ListedFile
      → SyncState
      → Option SyncAction × SyncState
  unfolding absorb_tombstone decide_remote_only decide_local_only decide_both
  decide_without_state path none none none s = (none, s)
  decide_without_state path none none (some tombstone) s = absorb_tombstone path tombstone s
  decide_without_state path none (some remote) tombstone s = decide_remote_only path remote s
  decide_without_state path (some local) none tombstone s = decide_local_only path local tombstone s
  decide_without_state path (some local) (some remote) tombstone s = decide_both path local remote s

  -- the loop over the sorted paths
  unfoldable pub decide_listed :
      Dict FileEntry → Listing → List String → SyncState → List SyncAction × SyncState
  unfolding decide_without_state
  decide_listed scanned l [] s = ([], s)
  decide_listed scanned l (path ∷ paths) s =
      let step =
        decide_without_state path (lookup path scanned) (lookup path l.remote_by_path)
          (lookup path l.tombstone_by_path) s in
      let (actions, s') = decide_listed scanned l paths step.1 in
      (elim step.0 [ none ↦ actions | some action ↦ action ∷ actions ], s')

  unfoldable pub run_without_state :
      List ListedFile → Dict FileEntry → String → SyncState → List SyncAction × SyncState
  unfolding sort_listing decide_listed
  run_without_state remote_files scanned token s =
      let l = sort_listing (record { remote_by_path = []; tombstone_by_path = [] }) remote_files in
      let paths =
        sort_texts
          (union (union (keys scanned) (keys l.remote_by_path)) (keys l.tombstone_by_path)) in
      let (actions, s') = decide_listed scanned l paths s in
      (actions, record s' { page_token = some token })
