-- ===== src/Engine/Site.antt =====
-- What the engine's methods call: the Drive client, the clocks, and the file operations that may fail.
-- A reply of the client may depend on all calls before.
use obsidian_sync.Base.{ℕ, ℤ, String, Bool, Option, none, some, List, ◌∷◌, Dict}
use obsidian_sync.Vector.{VersionVector, empty, update}
use obsidian_sync.Drive.{DriveCall}
use obsidian_sync.Vault.{LocalFile}
use obsidian_sync.Trash.{Trash, MoveFault}
use obsidian_sync.Conflict.{Naming}
use obsidian_sync.State.{FileEntry, update_file}
use obsidian_sync.Engine.{Engine, Ending, token_invalid, not_found, failed, mark_written}

-- the exceptions of the client
pub data Failure : Type 0 where
  token_lost : Failure
  missing : String → Failure
  other_failure : Failure

abbrev pub ending_of : Failure → Ending
ending_of token_lost = token_invalid
ending_of (missing id) = not_found id
ending_of other_failure = failed

pub data Reply (A : Type 0) : Type 0 where
  answer : A → Reply A
  raises : Failure → Reply A

pub record UploadResult : Type 0 where
  pub id : String
  pub md5_checksum : Option String

-- the metadata that `download` returns
pub record FetchedMeta : Type 0 where
  pub md5_checksum : Option String
  pub app_properties : Option (Dict String)

-- `download` fails before it writes the file, or after, or returns the metadata.
pub data Fetched : Type 0 where
  unread : Failure → Fetched
  unlisted : LocalFile → Failure → Fetched
  fetched : LocalFile → FetchedMeta → Fetched

pub record Site : Type 0 where
  -- `none` also for an exception, which the engine catches
  pub find_file_by_rel_path : List DriveCall → String → Option String
  pub upload :
      List DriveCall → LocalFile → String → Option String → Dict String → Reply UploadResult
  -- the hash, `none` also for an exception
  pub get_md5 : List DriveCall → Option String → Option String
  pub download : List DriveCall → Option String → Fetched
  pub move_to_tombstones : List DriveCall → Option String → Dict String → Option Failure
  pub hard_delete : List DriveCall → Option String → Option Failure
  pub rename : List DriveCall → String → String → Option Failure
  pub compute_md5 : LocalFile → Option String
  pub naming : Engine → Naming
  pub copy_fails : String → Bool
  -- `none` without a trash manager
  pub trash_fault : Option (String → MoveFault)
  pub new_trash_id : Trash → String
  pub unlink_fails : String → Bool
  pub monotonic : Engine → ℕ
  pub wall : Engine → ℕ
  pub clock_ms : Engine → ℤ
  pub echo_window : ℕ

-- `existing.version if existing else VersionVector.empty()`
abbrev pub version_or_empty : Option FileEntry → VersionVector
version_or_empty none = empty
version_or_empty (some e) = e.version

module _ (site : Site) where
  -- the device's next version of the file
  unfoldable pub next_version : Option FileEntry → Engine → VersionVector
  next_version existing e = update (version_or_empty existing) e.state.device_id (site.clock_ms e)

  unfoldable pub mark_local_written : String → Engine → Engine
  unfolding mark_written
  mark_local_written path e = record e {
    recent_local_writes =
        mark_written site.echo_window (site.monotonic e) path e.recent_local_writes;
  }

  unfoldable pub mark_drive_written : String → Engine → Engine
  unfolding mark_written
  mark_drive_written id e = record e {
    recent_drive_writes = mark_written site.echo_window (site.monotonic e) id e.recent_drive_writes;
  }

-- `self._state.update_file(path, entry)`
unfoldable pub record_entry : String → FileEntry → Engine → Engine
unfolding update_file
record_entry path entry e = record e { state = update_file path entry e.state }

unfoldable pub called : DriveCall → Engine → Engine
called call e = record e { calls = call ∷ e.calls }
