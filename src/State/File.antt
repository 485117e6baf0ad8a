-- ===== src/State/File.antt =====
-- src/state.py: the state file. A JSON object is a record of what its keys give, `none` for a missing
-- key. `Faults` says which file operations raise an `OSError`.
pub mod RoundTrip
pub mod Loading
use obsidian_sync.Base.{
  ℕ, zero, suc, String, Bool, true, false, Option, none, some, List, [], ◌∷◌, ℤ, Dict, insert,
  contains, if◌then◌else◌, some_or, sort_texts, first_chars, not, ◌&&◌, ◌==◌,
}
use obsidian_sync.Vector.{VersionVector, non_empty, to_dict, from_dict}
use obsidian_sync.State.{FileEntry, SyncState}

pub record EntryJson : Type 0 where
  pub mtime : Option ℕ
  pub size : Option ℤ
  pub drive_id : Option String
  pub version : Option (Dict ℤ)
  pub deleted : Option Bool
  pub deleted_at : Option ℕ
  pub md5 : Option String

-- `FileEntry.to_dict`
unfoldable pub entry_to_dict : FileEntry → EntryJson
unfolding non_empty to_dict
entry_to_dict e = record {
  mtime = some e.mtime;
  size = some e.size;
  drive_id = e.drive_id;
  version = if non_empty e.version then some (to_dict e.version) else none;
  deleted = if e.deleted then some true else none;
  deleted_at = e.deleted_at;
  md5 = e.md5;
}

-- `FileEntry.from_dict`; without `mtime` or `size` it raises a `KeyError`
unfoldable pub entry_from_dict : EntryJson → Option FileEntry
unfolding from_dict
entry_from_dict j = elim j.mtime [
  | none ↦ none
  | some mtime ↦ elim j.size [
    | none ↦ none
    | some size ↦ some (record {
      mtime = mtime;
      size = size;
      drive_id = j.drive_id;
      version = from_dict j.version;
      deleted = some_or j.deleted false;
      deleted_at = j.deleted_at;
      md5 = j.md5;
    })
  ]
]

pub record StateJson : Type 0 where
  pub version : Option ℕ
  pub device_id : Option String
  pub page_token : Option String
  pub last_synced_at : Option ℕ
  pub known_device_ids : Option (List String)
  pub files : Option (Dict EntryJson)

pub data Content : Type 0 where
  json : StateJson → Content
  -- not UTF-8, or not JSON
  garbled : Content

-- The files of the state directory: the state file and its two backups.
pub record StateDir : Type 0 where
  pub state_file : Option Content
  pub backup : Option Content
  pub v1_backup : Option Content

pub record Faults : Type 0 where
  pub rename : Bool
  pub copy : Bool
  pub write : Bool

-- `{path: entry.to_dict() for …}`
unfoldable pub files_to_dict : Dict FileEntry → Dict EntryJson
files_to_dict [] = []
files_to_dict ((path, e) ∷ d) = (path, entry_to_dict e) ∷ files_to_dict d

-- The loop of `load` over the files; `true` means that an entry raised.
unfoldable pub load_files : Dict FileEntry → Dict EntryJson → Dict FileEntry × Bool
load_files acc [] = (acc, false)
load_files acc ((path, j) ∷ d) = elim (entry_from_dict j) [
  | none ↦ (acc, true)
  | some e ↦ load_files (insert path e acc) d
]

abbrev pub version : ℕ
version = 2

unfoldable pub state_json : SyncState → StateJson
unfolding files_to_dict
state_json s = record {
  version = some version;
  device_id = some s.device_id;
  page_token = s.page_token;
  last_synced_at = s.last_synced_at;
  known_device_ids = some (sort_texts s.known_device_ids);
  files = some (files_to_dict s.files);
}

-- `_write_state_file`: a failed write leaves the old file, and is only logged
unfoldable pub write_state_file : Faults → StateDir → SyncState → StateDir × SyncState
unfolding state_json
write_state_file f d s = (
  if f.write then d else record d { state_file = some (json (state_json s)) },
  record s { dirty = false; save_timer = false },
)

-- `save(immediate=True)`
unfoldable pub save_now : Faults → StateDir → SyncState → StateDir × SyncState
unfolding write_state_file
save_now f d s = write_state_file f d (record s { save_timer = false })

unfoldable pub shutdown : ℕ → Faults → StateDir → SyncState → StateDir × SyncState
unfolding write_state_file
shutdown now f d s =
    write_state_file f d (record s { save_timer = false; last_synced_at = some now })

-- `_backup_corrupt_state`
unfoldable pub backup_corrupt_state : Faults → StateDir → StateDir
backup_corrupt_state f d =
    if f.rename then d else record d { state_file = none; backup = d.state_file }

-- `_backup_v1_state`
unfoldable pub backup_v1_state : Faults → StateDir → StateDir
backup_v1_state f d = if f.copy then d else record d { v1_backup = d.state_file }

-- `ids.add(id)`
unfoldable pub add_id : String → List String → List String
add_id id ids = if contains ids id then ids else id ∷ ids

-- Whether `_check_device_prefix_collision` warns.
unfoldable pub prefix_collision : String → List String → Bool
prefix_collision device_id [] = false
prefix_collision device_id (other ∷ ids) =
    let later = prefix_collision device_id ids in
    if not (other == device_id) && first_chars 8 other == first_chars 8 device_id
    then true
    else later

-- What `load` returns, or that it raises.
pub data Loaded : Type 0 where
  loaded not_loaded raised : Loaded

-- the memory after the locked block; what stands behind a raising entry is not reached
unfoldable pub fill_state : String → StateJson → SyncState → SyncState × Bool
unfolding load_files add_id
fill_state config_device_id j s =
    let device_id = some_or j.device_id config_device_id in
    let (files, failed) = load_files [] (some_or j.files []) in
    let s' = record s {
      device_id = device_id;
      page_token = j.page_token;
      last_synced_at = j.last_synced_at;
      files = files;
    } in
    (
      if failed
          then s'
          else record s' { known_device_ids = add_id device_id (some_or j.known_device_ids []) },
      failed,
    )

-- `load` on the object of a supported version, `migrate` saying that it is version 1
unfoldable pub load_json :
    String → Faults → Bool → StateJson → StateDir → SyncState → StateDir × SyncState × Loaded
unfolding save_now
load_json config_device_id f migrate j d s =
    let (s', failed) = fill_state config_device_id j s in
    if failed
    then (d, s', raised)
    else if migrate
    then (let (d', s'') = save_now f d s' in (d', s'', loaded))
    else (d, s', loaded)

-- the version of a supported file, and whether it is the first one
unfoldable pub is_v1 : Option ℕ → Option Bool
is_v1 (some (suc zero)) = some true
is_v1 (some (suc (suc zero))) = some false
is_v1 _ = none

-- `load` on what the state file holds
unfoldable pub load_content :
    String → Faults → Option Content → StateDir → SyncState → StateDir × SyncState × Loaded
unfolding load_json backup_v1_state backup_corrupt_state
load_content config_device_id f none d s = (d, s, not_loaded)
load_content config_device_id f (some garbled) d s = (backup_corrupt_state f d, s, not_loaded)
load_content config_device_id f (some (json j)) d s = elim (is_v1 j.version) [
  | none ↦ (backup_corrupt_state f d, s, not_loaded)
  | some true ↦ load_json config_device_id f true j (backup_v1_state f d) s
  | some false ↦ load_json config_device_id f false j d s
]

unfoldable pub load : String → Faults → StateDir → SyncState → StateDir × SyncState × Loaded
unfolding load_content
load config_device_id f d s = load_content config_device_id f d.state_file d s
