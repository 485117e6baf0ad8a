-- ===== src/Drive/Client/Shared.antt =====
-- src/drive_client.py: `.sync/convergence.json`. The JSON of the shared file is a parameter: `load_json`
-- gives `none` for a text that is none, and `dump_json` is `json.dumps`.
pub mod Checked
use Prim.Native.String.{◌++◌ as ◌+text◌}
use obsidian_sync.Base.{
  String, Bool, true, false, Option, none, some, List, [], ◌∷◌, if◌then◌else◌, truthy_text, some_or,
  ◌==◌,
}
use obsidian_sync.Convergence.{SharedFile}
use obsidian_sync.Drive.Retry.{Executed, returned, file_missing, token_gone, passed_on}
use obsidian_sync.Drive.Client.{
  Service, Session, Client, Stored, Body, empty_body, Call, and_then, ◌>>=◌, ◌>>◌, pure, modify,
  list_ids, create, update_with, get, read_media,
}
use obsidian_sync.Drive.Client.Folder.{ensure_folder_path, first_id}

unfoldable pub convergence_query : String → String
convergence_query sync_folder_id =
    "'" +text sync_folder_id +text "' in parents and name = 'convergence.json' and trashed = false"

-- `{}`
abbrev pub empty_file : SharedFile
empty_file = record { schema = none; devices = none; blacklist = none }

abbrev pub remember_file : String → Session → Session
remember_file id s = record s { convergence_file_id = some id }

-- `str(meta.get("version", "0"))`
abbrev pub version_of : Stored → String
version_of file = some_or file.version "0"

module _ (service : Service) (load_json : String → Option SharedFile)
    (dump_json : SharedFile → String) where
  unfoldable pub find_convergence_file : Client (Option String)
  unfolding ensure_folder_path list_ids convergence_query first_id
  find_convergence_file = do
    sync_folder_id ← ensure_folder_path service ".sync"
    ids ← list_ids service (convergence_query sync_folder_id)
    pure (first_id ids)

  -- the file that was found, or a new one
  unfoldable pub or_create_file : Option String → Client String
  unfolding ensure_folder_path create
  or_create_file (some id) = pure id
  or_create_file none = do
    sync_folder_id ← ensure_folder_path service ".sync"
    made ← create service (record empty_body {
      name = some "convergence.json";
      parent = some sync_folder_id;
      mime_type = some "application/json";
      media = some "{}";
    })
    pure made.id

  unfoldable pub ensure_convergence_file : Client String
  unfolding find_convergence_file or_create_file
  ensure_convergence_file s = elim s.convergence_file_id [
    | some id ↦ (s, returned id)
    | none ↦
        (do
          found ← find_convergence_file
          id ← or_create_file found
          modify (remember_file id)
          pure id)
          s
  ]

  -- `json.loads(content) if content else {}`, or an empty object for text that is no JSON
  unfoldable pub shared_file : String → SharedFile
  shared_file content =
      if truthy_text content then some_or (load_json content) empty_file else empty_file

  -- the file's content, with its version
  unfoldable pub read_found : Option String → Client (SharedFile × String)
  unfolding read_media shared_file get
  read_found none = pure (empty_file, "0")
  read_found (some id) = do
    modify (remember_file id)
    content ← read_media service none id
    file ← get service none id
    pure (shared_file content, version_of file)

  unfoldable pub read_convergence : Client (SharedFile × String)
  unfolding find_convergence_file read_found
  read_convergence = find_convergence_file >>= read_found

  -- the write itself
  unfoldable pub write_file : SharedFile → String → Client Bool
  unfolding update_with
  write_file file id = do
    update_with service (some id) id (record empty_body { media = some (dump_json file) })
    pure true

  -- the write, if the version just read is the one expected
  unfoldable pub write_checked : SharedFile → String → String → Client Bool
  unfolding get write_file
  write_checked file expected_version id = do
    current ← get service none id
    if version_of current == expected_version then write_file file id else pure false

  unfoldable pub write_convergence : SharedFile → String → Client Bool
  unfolding ensure_convergence_file write_file write_checked
  write_convergence file expected_version = do
    id ← ensure_convergence_file
    if expected_version == "0" then write_file file id else write_checked file expected_version id
