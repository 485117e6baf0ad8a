-- ===== src/Drive/Client/Tests.antt =====
-- An empty vault, of which the service creates what it is asked for.
use Prim.Native.String.{◌++◌ as ◌+text◌}
use obsidian_sync.Base.{
  ℕ, String, true, false, ◌≡◌, refl, subst, Option, none, some, [], ◌∷◌, if◌then◌else◌, some_or,
  truthy_text, ◌==◌, insert, starts_with_slash,
}
use obsidian_sync.Convergence.{SharedFile}
use obsidian_sync.Drive.Retry.{answered, http_status, returned}
use obsidian_sync.Drive.Client.{Service, Session, Stored, get_file, update_file, empty_body}
use obsidian_sync.Drive.Client.Folder.{
  ensure_folder_path, folder_query, file_query, ensure_tombstones_folder,
}
use obsidian_sync.Drive.Client.Folder.Added.{Keeps, IsNamed}
use obsidian_sync.Drive.Client.Folder.Ensured.{ensure_folder_path-twice}
use obsidian_sync.Drive.Client.Folder.Quoted.{
  no_backslash, name_of, after_name, folder_end, name_of-query,
}
use obsidian_sync.Drive.Client.Content.{given, move_to_tombstones}
use obsidian_sync.Drive.Client.Content.Tombstoned.{move_to_tombstones-moves}
use obsidian_sync.Drive.Client.Shared.{empty_file, version_of, write_convergence}
use obsidian_sync.Drive.Client.Shared.Checked.{StartsAt, overwrite, write_convergence-checked}

abbrev stored : String → Stored
stored id = record {
  id = id;
  md5_checksum = none;
  app_properties = none;
  version = some "7";
  parents = some ("notes" ∷ []);
}

-- a new folder or file has its name with a sign for its id
abbrev service : Service
service = record {
  on_list = λ sent query n. answered [];
  on_create = λ sent body n. answered (stored (String.◌∷◌ "@" (some_or body.name "")));
  on_update = λ sent id body n. answered (stored id);
  on_get = λ sent id n. if id == "gone" then http_status (some 404) else answered (stored id);
  on_media = λ sent id n. answered "{}";
  on_token = λ sent n. answered "1";
}

abbrev fresh : Session
fresh = record {
  root = "root";
  caches = record {
    folder_cache = [];
    folder_id_to_rel = ("root", "") ∷ [];
    vault_folder_ids = "root" ∷ [];
    non_vault_ids = [];
    tombstones_folder_id = none;
  };
  convergence_file_id = none;
  written = [];
  sent = [];
}

abbrev load_json : String → Option SharedFile
load_json content = some empty_file

abbrev dump_json : SharedFile → String
dump_json file = "{}"

service-IsNamed : IsNamed service
unfolding truthy_text
service-IsNamed sent body n made h =
    subst (λ (x : Stored). truthy_text x.id ≡ true)
      (let e : stored (String.◌∷◌ "@" (some_or body.name "")) ≡ made = cc h in e) refl

abbrev after : Session
after = (ensure_folder_path service "notes/archive" fresh).0

first_call : ensure_folder_path service "notes/archive" fresh ≡ (after, returned "@archive")
unfolding ensure_folder_path insert
first_call = refl

same_root : after.root ≡ fresh.root
unfolding ensure_folder_path insert
same_root = refl

relative : starts_with_slash "notes/archive" ≡ false
unfolding starts_with_slash
relative = refl

ensure_folder_path-twice_example :
    Keeps fresh after
    × (ensure_folder_path service "notes/archive" after ≡ (after, returned "@archive"))
ensure_folder_path-twice_example =
    ensure_folder_path-twice service "notes/archive" fresh after after "@archive" service-IsNamed
      relative first_call (λ path id c. c) same_root

plain_name : no_backslash "Valentine's Day" ≡ true
unfolding no_backslash
plain_name = refl

name_of-query_example :
    (name_of (folder_query "Valentine's Day" "root")
      ≡ some ("Valentine's Day", after_name "root" "="))
    × (name_of (file_query "Valentine's Day" "root")
        ≡ some ("Valentine's Day", after_name "root" "!="))
    × (name_of (folder_query ("Valentine's Day" +text "\\") "root")
        ≡ some ("Valentine's Day" +text "' and ", folder_end "root"))
name_of-query_example = name_of-query "Valentine's Day" "root" plain_name

abbrev synced : Session
synced = (write_convergence service load_json dump_json empty_file "7" fresh).0

checked_write :
    write_convergence service load_json dump_json empty_file "7" fresh ≡ (synced, returned true)
unfolding write_convergence insert
checked_write = refl

write_convergence-checked_example :
    (t : Session) × (id : String) × (current : Stored) × (n : ℕ) × StartsAt service load_json
      dump_json fresh t id
    × (service.on_get t.sent id n ≡ answered current)
    × (true ≡ version_of current == "7")
    × (synced.sent ≡ (
        if true
        then overwrite service load_json dump_json empty_file id ∷ get_file id ∷ t.sent
        else get_file id ∷ t.sent))
write_convergence-checked_example =
    write_convergence-checked service load_json dump_json empty_file "7" fresh synced true refl
      checked_write

abbrev buried : Session
buried = (move_to_tombstones service "note" none fresh).0

moved : move_to_tombstones service "note" none fresh ≡ (buried, returned tt)
unfolding move_to_tombstones insert
moved = refl

move_to_tombstones-moves_example :
    (t : Session) × (tombstones_id : String) × (file : Stored) × (ensure_tombstones_folder service
        fresh
      ≡ (t, returned tombstones_id))
    × (service.on_get t.sent "note" 0 ≡ answered file)
    × (buried.sent
        ≡ update_file "note" (record empty_body {
          add_parents = some tombstones_id;
          remove_parents = some_or file.parents [];
          app_properties = given none;
        })
          ∷ get_file "note"
          ∷ t.sent)
move_to_tombstones-moves_example = move_to_tombstones-moves service "note" none fresh buried moved
