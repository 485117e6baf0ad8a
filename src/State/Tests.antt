-- ===== src/State/Tests.antt =====
-- The state file and the scan at concrete data.
use obsidian_sync.Base.{
  String, Bool, true, false, ◌≡◌, refl, none, some, [], ◌∷◌, pos, lookup, keys, contains, Distinct,
  ◌==◌, insert,
}
use obsidian_sync.Vector.{empty}
use obsidian_sync.State.{FileEntry, SyncState, new_entry}
use obsidian_sync.State.File.{
  entry_from_dict, StateJson, json, garbled, StateDir, Faults, load, loaded, not_loaded,
  write_state_file,
}
use obsidian_sync.State.File.RoundTrip.{Restores, load-write_state_file}
use obsidian_sync.State.File.Loading.{load_unusable, IsV1}
use obsidian_sync.State.Scan.{file, dir, other, Listing, denied, end, entry, scan_local_files}

abbrev note : FileEntry
note = record (new_entry 100 (pos 10)) {
  drive_id = some "drive1";
  version = record { counters = ("laptop00", pos 7) ∷ [] };
}

abbrev gone : FileEntry
gone = record (new_entry 90 (pos 4)) { deleted = true; deleted_at = some 95 }

abbrev state : SyncState
state = record {
  device_id = "laptop00-1";
  page_token = some "t1";
  last_synced_at = none;
  files = ("a.md", note) ∷ ("b.md", gone) ∷ [];
  known_device_ids = "phone000-1" ∷ [];
  dirty = true;
  save_timer = true;
}

abbrev fresh : SyncState
fresh = record {
  device_id = "host";
  page_token = none;
  last_synced_at = none;
  files = [];
  known_device_ids = [];
  dirty = false;
  save_timer = false;
}

abbrev no_faults : Faults
no_faults = record { rename = false; copy = false; write = false }

abbrev empty_dir : StateDir
empty_dir = record { state_file = none; backup = none; v1_backup = none }

paths_Distinct : Distinct state.files
unfolding contains keys
paths_Distinct = (refl, (refl, tt))

load-write_state_file_example :
    let d' = (write_state_file no_faults empty_dir state).0 in
    let r = load "host" no_faults d' fresh in (r.0 ≡ d') × (Restores state r.1) × (r.2 ≡ loaded)
load-write_state_file_example =
    load-write_state_file "host" no_faults no_faults empty_dir state fresh refl paths_Distinct

abbrev broken_dir : StateDir
broken_dir = record empty_dir { state_file = some garbled }

load_unusable_example :
    load "host" no_faults broken_dir fresh
    ≡ (record broken_dir { state_file = none; backup = some garbled }, fresh, not_loaded)
load_unusable_example = load_unusable "host" no_faults broken_dir fresh tt

abbrev v1_json : StateJson
v1_json = record {
  version = some 1;
  device_id = none;
  page_token = some "t0";
  last_synced_at = none;
  known_device_ids = none;
  files = some (
      (
        "a.md",
        record {
          mtime = some 100;
          size = some (pos 10);
          drive_id = some "drive1";
          version = none;
          deleted = none;
          deleted_at = none;
          md5 = none;
        },
      )
      ∷ []);
}

abbrev v1_dir : StateDir
v1_dir = record empty_dir { state_file = some (json v1_json) }

v1_json-IsV1 : IsV1 v1_json
unfolding entry_from_dict new_entry empty
v1_json-IsV1 = (refl, ((record (new_entry 100 (pos 10)) { drive_id = some "drive1" }, refl), tt))

abbrev vault : Listing
vault = entry (file "a.md" (some (120, pos 11))) (
    entry (dir ".git" (entry (file "HEAD" (some (1, pos 1))) end)) (
      entry (dir "sub" (entry (file "c.md" (some (130, pos 12))) denied))
        (entry (other "link") end)))

abbrev ignored : String → Bool
ignored path = path == ".git"

scanned_paths : keys (scan_local_files ignored state.files vault) ≡ "a.md" ∷ "sub/c.md" ∷ []
unfolding keys scan_local_files insert
scanned_paths = refl

scanned_note :
    lookup "a.md" (scan_local_files ignored state.files vault)
    ≡ some (record note { mtime = 120; size = pos 11 })
unfolding lookup scan_local_files insert
scanned_note = refl
