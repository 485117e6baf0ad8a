-- ===== src/Drive.antt =====
-- src/drive_client.py: what the client hands to its callers.
pub mod Retry
pub mod Folders
pub mod Paging
pub mod Resolve
pub mod Listing
pub mod Client
use obsidian_sync.Base.{
  String, Bool, false, ◌||◌, Option, none, some, List, ℤ, Dict, contains, if◌then◌else◌,
}

-- The dict of a remote file. The API's own keys (`appProperties`, `modifiedTime`, `md5Checksum`,
-- `size`, `parents`) stand beside the keys that the client writes (`modified_time`, `md5`). A size
-- is the integer that the API's numeral stands for.
pub record FileMeta : Type 0 where
  pub name : Option String
  pub modified_time : Option String
  pub md5 : Option String
  pub api_modified_time : Option String
  pub api_md5_checksum : Option String
  pub api_size : Option ℤ
  pub api_app_properties : Option (Dict String)
  pub api_parents : Option (List String)

-- one change, as `get_changes` returns it
pub record Change : Type 0 where
  pub file_id : String
  pub removed : Bool
  pub file : Option FileMeta
  pub app_properties : Option (Dict String)
  pub parents : Option (List String)

-- one file of `list_all_files`
pub record ListedFile : Type 0 where
  pub id : String
  pub relative_path : Option String
  pub meta : FileMeta

-- a file of the Changes API
pub record ApiFile : Type 0 where
  pub name : Option String
  pub mime_type : Option String
  pub modified_time : Option String
  pub parents : List String
  pub trashed : Bool
  pub md5_checksum : Option String
  pub app_properties : Option (Dict String)

-- the `file` dict that `_normalize_change` writes for a file that is there
unfoldable pub file_payload : ApiFile → FileMeta
file_payload f = record {
  name = f.name;
  modified_time = f.modified_time;
  md5 = f.md5_checksum;
  api_modified_time = none;
  api_md5_checksum = none;
  api_size = none;
  api_app_properties = none;
  api_parents = none;
}

-- The end of `_normalize_change`, for a change of a file inside the vault: a removed or trashed file
-- and a file in the tombstones folder are deletions.
unfoldable pub normalized : Option String → String → Bool → ApiFile → Change
unfolding file_payload
normalized tombstones_folder file_id removed f =
    let in_tombstones : Bool = elim tombstones_folder [
      | none ↦ false
      | some id ↦ contains f.parents id
    ] in
    let deleted = removed || f.trashed || in_tombstones in
    record {
      file_id = file_id;
      removed = deleted;
      file = if deleted then none else some (file_payload f);
      app_properties = f.app_properties;
      parents = some f.parents;
    }

-- The methods of the client that the engine calls, with their arguments. A file is given by its content.
pub data DriveCall : Type 0 where
  find_file_by_rel_path : String → DriveCall
  upload_file : String → String → Option String → Dict String → DriveCall
  get_file_metadata : Option String → DriveCall
  download_file : Option String → DriveCall
  move_to_tombstones : Option String → Dict String → DriveCall
  hard_delete : Option String → DriveCall
  rename_file : String → String → DriveCall
