-- ===== src/Drive/Client/Content.antt =====
-- src/drive_client.py: uploads, downloads, and the changes of a file.
pub mod Tombstoned
use obsidian_sync.Base.{
  String, Bool, true, false, Option, none, some, List, [], ◌∷◌, Dict, insert, if◌then◌else◌,
  truthy_text, some_or,
}
use obsidian_sync.Drive.Retry.{Executed, returned, file_missing, token_gone, passed_on}
use obsidian_sync.Drive.Client.{
  Service, Session, Client, Stored, Body, empty_body, Call, update_file, get_file, get_media,
  get_start_token, and_then, ◌>>=◌, ◌>>◌, pure, modify, request_with_retry, request_once, create,
  update_with, get, read_media,
}
use obsidian_sync.Drive.Client.Folder.{
  ensure_folder_path, ensure_tombstones_folder, parent_and_name,
}

-- `if app_properties: body["appProperties"] = app_properties`
unfoldable pub given : Option (Dict String) → Option (Dict String)
given none = none
given (some []) = none
given (some (p ∷ ps)) = some (p ∷ ps)

-- an exception that is no answer of the service
abbrev pub raise : {A : Type 0} → Client A
raise s = (s, passed_on)

module _ (service : Service) where
  -- the branch for a file that Drive has
  unfoldable pub upload_update : String → String → String → Option (Dict String) → Client Stored
  unfolding given update_with
  upload_update name content existing_id props =
      update_with service (some existing_id) existing_id
        (record empty_body { name = some name; app_properties = given props; media = some content })

  -- the branch for a new file
  unfoldable pub upload_create : String → String → String → Option (Dict String) → Client Stored
  unfolding parent_and_name ensure_folder_path create given
  upload_create name content path props = do
    parent_id ← ensure_folder_path service (parent_and_name path).0
    create service (record empty_body {
      name = some name;
      parent = some parent_id;
      app_properties = given props;
      media = some content;
    })

  -- `content` is that of the local file, `none` if it cannot be read, and `name` is its name.
  unfoldable pub upload :
      String → Option String → String → Option String → Option (Dict String) → Client Stored
  unfolding upload_update upload_create
  upload name none path existing_id props = raise
  upload name (some content) path none props = upload_create name content path props
  upload name (some content) path (some existing_id) props =
      if truthy_text existing_id
      then upload_update name content existing_id props
      else upload_create name content path props

  unfoldable pub get_file_metadata : String → Client Stored
  unfolding get
  get_file_metadata id = get service (some id) id

  unfoldable pub download : String → String → Client Stored
  unfolding read_media get_file_metadata
  download id local_path = do
    content ← read_media service (some id) id
    modify (λ s. record s { written = insert local_path content s.written })
    get_file_metadata id

  unfoldable pub hard_delete : String → Client (Unit {0})
  unfolding update_with
  hard_delete id = do
    update_with service (some id) id (record empty_body { trashed = true })
    pure tt

  -- a bare request for the parents of a file
  unfoldable pub get_parents : String → Client (List String)
  unfolding request_once
  get_parents id = do
    file ← request_once (get_file id) (λ sent. service.on_get sent id)
    pure (some_or file.parents [])

  unfoldable pub move_to_tombstones : String → Option (Dict String) → Client (Unit {0})
  unfolding ensure_tombstones_folder get_parents update_with given
  move_to_tombstones id props = do
    tombstones_id ← ensure_tombstones_folder service
    old_parents ← get_parents id
    update_with service (some id) id (record empty_body {
      add_parents = some tombstones_id;
      remove_parents = old_parents;
      app_properties = given props;
    })
    pure tt

  unfoldable pub rename : String → String → Client (Unit {0})
  unfolding update_with
  rename id new_name = do
    update_with service (some id) id (record empty_body { name = some new_name })
    pure tt

  -- `if new_name: body["name"] = new_name`
  unfoldable pub new_name_of : Option String → Option String
  new_name_of none = none
  new_name_of (some name) = if truthy_text name then some name else none

  unfoldable pub move : String → String → Option String → Client (Unit {0})
  unfolding get_parents request_once new_name_of
  move id new_parent_id new_name = do
    old_parents ← get_parents id
    let body : Body = record empty_body {
      add_parents = some new_parent_id;
      remove_parents = old_parents;
      name = new_name_of new_name;
    }
    request_once (update_file id body) (λ sent. service.on_update sent id body)
    pure tt

  unfoldable pub get_initial_token : Client String
  unfolding request_with_retry
  get_initial_token = request_with_retry none get_start_token service.on_token
