-- ===== src/Scripts/DriveDuplicates/Tests.antt =====
-- A listing with a copy at the root.
use obsidian_sync.Base.{String, true, false, ◌≡◌, refl, ◌⊎◌, none, some, List, [], ◌∷◌, map, In}
use obsidian_sync.Drive.{ListedFile}
use obsidian_sync.Drive.Retry.{answered}
use obsidian_sync.Drive.Client.{Service, Session, Stored, Call}
use obsidian_sync.Scripts.DriveDuplicates.{Duplicate, find_duplicates, clean_up}
use obsidian_sync.Scripts.DriveDuplicates.Doubled.{IsDoubled, to_trash, clean_up-Doubled}

abbrev listed : String → String → ListedFile
listed id path = record {
  id = id;
  relative_path = some path;
  meta = record {
    name = none;
    modified_time = none;
    md5 = none;
    api_modified_time = none;
    api_md5_checksum = none;
    api_size = none;
    api_app_properties = none;
    api_parents = none;
  };
}

abbrev listing : List ListedFile
listing = listed "1" "a.md" ∷ listed "2" "daily/a.md" ∷ listed "3" "b.md" ∷ []

one_duplicate : map (λ d. d.id) (find_duplicates listing) ≡ "1" ∷ []
unfolding find_duplicates
one_duplicate = refl

abbrev stored : String → Stored
stored id = record {
  id = id;
  md5_checksum = none;
  app_properties = none;
  version = none;
  parents = none;
}

abbrev service : Service
service = record {
  on_list = λ sent query n. answered [];
  on_create = λ sent body n. answered (stored "new");
  on_update = λ sent id body n. answered (stored id);
  on_get = λ sent id n. answered (stored id);
  on_media = λ sent id n. answered "";
  on_token = λ sent n. answered "1";
}

abbrev session : Session
session = record {
  root = "root";
  caches = record {
    folder_cache = [];
    folder_id_to_rel = [];
    vault_folder_ids = [];
    non_vault_ids = [];
    tombstones_folder_id = none;
  };
  convergence_file_id = none;
  written = [];
  sent = [];
}

clean_up-Doubled_example :
    (clean_up service false listing session ≡ (session, 0))
    × ((call : Call)
        → In call (clean_up service true listing session).0.sent
        → In call session.sent ⊎ ((d : Duplicate) × IsDoubled listing d × (call ≡ to_trash d.id)))
clean_up-Doubled_example = clean_up-Doubled service listing session
