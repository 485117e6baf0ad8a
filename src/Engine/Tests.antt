-- ===== src/Engine/Tests.antt =====
-- The engine's theorems at an engine with a queued download.
use obsidian_sync.Base.{Option, Bool, List, ◌==◌, String, false, none, some, [], ◌∷◌}
use obsidian_sync.Reconcile.Actions.{upload_file, download_file, version_greater, version_lesser}
use obsidian_sync.Intent.{recorded_line, resolved_line}
use obsidian_sync.Engine.{Engine}
use obsidian_sync.Drive.{Change}

abbrev pub engine : Engine
engine = record {
  state = record {
    device_id = "laptop00-1";
    page_token = none;
    last_synced_at = none;
    files = [];
    known_device_ids = [];
    dirty = false;
    save_timer = false;
  };
  log = some (recorded_line "a1" (upload_file "x.md" version_greater) ∷ resolved_line "a1" ∷ []);
  lock = false;
  pending = download_file (some "drive1") "y.md" version_lesser ∷ [];
  recent_local_writes = [];
  recent_drive_writes = ("drive1", 30) ∷ [];
  vault = [];
  trash = record { bodies = []; metas = [] };
  calls = [];
}

-- a new file on the Drive
abbrev pub phone_change : Change
phone_change = record {
  file_id = "drive9";
  removed = false;
  file = some (record {
    name = some "n.md";
    modified_time = none;
    md5 = some "bb";
    api_modified_time = none;
    api_md5_checksum = none;
    api_size = none;
    api_app_properties = none;
    api_parents = none;
  });
  app_properties = none;
  parents = some ("root" ∷ []);
}

abbrev pub ignored : String → Bool
ignored path = path == ".sync"

abbrev pub resolved_path : List String → String → Option String
resolved_path parents name = some name
