-- ===== src/Reconcile/Tests.antt =====
-- The reconciler's theorems at concrete files.
use mathlib.Core.Option
use obsidian_sync.Base.{
  drop_chars, insert, int_of_text, contains, max_ℤ, all_of, union, false, not, ◌≡◌, ◌≢◌, refl, [],
  ◌∷◌, none, some, pos, Dict, lookup, first_chars, truthy_text, eq_iff, eqb_ℤ_iff, eqb_ℤ, keys,
  values, ◌==◌,
}
use obsidian_sync.Vector.{
  greater, covers, ordering_of, all_keys, compare, empty, counter, non_empty,
}
use obsidian_sync.Vector.Order.{◌≤ⱽ◌, compare_iff}
use obsidian_sync.State.{FileEntry, SyncState, new_entry}
use obsidian_sync.Drive.{FileMeta, ListedFile, ApiFile, normalized}
use obsidian_sync.Reconcile.{max_value, decide, same_md5}
use obsidian_sync.Reconcile.Actions.{upload_file, version_greater}
use obsidian_sync.Reconcile.Local.{deleted, modified}
use obsidian_sync.Reconcile.Remote.{or_option, remote_pseudo_device}
use obsidian_sync.Codec.{decode}
use obsidian_sync.Reconcile.Incremental.{World, decide_incremental, run}
use obsidian_sync.Reconcile.Initial.{decide_without_state}
use obsidian_sync.Reconcile.Decide.{highest_clock, Justified, decide-Justified}
use obsidian_sync.Reconcile.Actions.{action_to_dict}
use obsidian_sync.Reconcile.Agree.{names_local, Tied, decide_agree}
use obsidian_sync.Reconcile.Paths.{AllPaths, run-AllPaths}
use obsidian_sync.Reconcile.LostUpdate.{reported, remote_edit_is_overwritten}
use obsidian_sync.Reconcile.FirstStart.{IsLocalDelete, Tombstoned, local_delete-Tombstoned}

abbrev laptop_file : FileEntry
laptop_file = record (new_entry 100 (pos 10)) {
  drive_id = some "drive1";
  version = record { counters = ("laptop00", pos 7) ∷ ("phone000", pos 2) ∷ [] };
  md5 = some "aa";
}

abbrev phone_file : FileEntry
phone_file = record (new_entry 120 (pos 12)) {
  drive_id = some "drive1";
  version = record { counters = ("laptop00", pos 5) ∷ ("phone000", pos 3) ∷ [] };
  md5 = some "bb";
}

abbrev world : World
world = record {
  should_ignore = λ path. path == ".sync";
  resolve_vault_rel_path = λ parents name. some name;
  compute_md5 = λ path. some "aa";
  parse_date = λ text. none;
  local_clock = λ path. pos 20;
  remote_clock = λ path. pos 21;
}

abbrev state : SyncState
state = record {
  device_id = "laptop00-1";
  page_token = some "t1";
  last_synced_at = none;
  files = ("note.md", laptop_file) ∷ [];
  known_device_ids = [];
  dirty = false;
  save_timer = false;
}

abbrev scanned : Dict FileEntry
scanned = ("note.md", laptop_file) ∷ []

decide-Justified_example :
    Justified (decide (some laptop_file) (some phone_file)) laptop_file phone_file
decide-Justified_example = decide-Justified laptop_file phone_file

clock_test : eqb_ℤ (highest_clock laptop_file) (highest_clock phone_file) ≡ false
unfolding max_value values max_ℤ
clock_test = refl

clocks_differ : ¬ Tied laptop_file phone_file
clocks_differ t =
    cc (clock_test, (eqb_ℤ_iff (highest_clock laptop_file) (highest_clock phone_file)).1 t.0)

decide_agree_example :
    names_local
      (action_to_dict
        (decide (some phone_file) (some laptop_file))
        "note.md"
        (some phone_file)
        (some laptop_file)
        state).0
    ≡ Option.map not (
        names_local
          (action_to_dict
            (decide (some laptop_file) (some phone_file))
            "note.md"
            (some laptop_file)
            (some phone_file)
            state).0)
decide_agree_example =
    decide_agree "note.md" laptop_file phone_file state state (λ _. clocks_differ)

run-AllPaths_example :
    AllPaths (λ path. world.should_ignore path ≡ false) (run world [] ([], none) state).0
run-AllPaths_example = run-AllPaths world [] ([], none) state

kinds_differ : modified ≢ deleted
kinds_differ h = cc h

note_in_scan : lookup "note.md" scanned ≡ some laptop_file
unfolding lookup
note_in_scan = refl

not_pseudo_device : first_chars 8 state.device_id ≢ first_chars 8 remote_pseudo_device
unfolding first_chars
not_pseudo_device h =
    cc ((eq_iff (first_chars 8 state.device_id) (first_chars 8 remote_pseudo_device)).1 h)

-- an edit of the phone, as the Changes API gives it
abbrev phone_upload : ApiFile
phone_upload = record {
  name = some "note.md";
  mime_type = some "text/markdown";
  modified_time = some "2025-01-01T00:00:00Z";
  parents = "root" ∷ [];
  trashed = false;
  md5_checksum = some "bb";
  app_properties =
      some (
        ("ot_sync_schema", "v2")
        ∷ ("ot_sync_vv_laptop00", "7")
        ∷ ("ot_sync_vv_phone000", "9")
        ∷ []);
}

laptop_counted : compare laptop_file.version empty ≡ greater
unfolding compare all_keys union keys ordering_of covers all_of counter lookup empty
laptop_counted = refl

above_empty : (empty ≤ⱽ laptop_file.version) × (¬ (laptop_file.version ≤ⱽ empty))
above_empty = (compare_iff laptop_file.version empty greater).0 laptop_counted

remote_edit_is_overwritten_example :
    decide_incremental world "note.md" none
      (some (reported "drive1" (normalized (some "tomb") "drive1" false phone_upload)))
      scanned
      scanned
      state
    ≡ (some (upload_file "note.md" version_greater), state)
unfolding normalized contains new_entry
remote_edit_is_overwritten_example =
    remote_edit_is_overwritten world "note.md" state scanned scanned (some "tomb") "drive1" false
      phone_upload laptop_file refl note_in_scan refl above_empty.0 above_empty.1

abbrev no_meta : FileMeta
no_meta = record {
  name = none;
  modified_time = none;
  md5 = none;
  api_modified_time = none;
  api_md5_checksum = some "bb";
  api_size = some (pos 12);
  api_app_properties = some (("ot_sync_schema", "v2") ∷ ("ot_sync_vv_laptop00", "9") ∷ []);
  api_parents = none;
}

abbrev listed : ListedFile
listed = record { id = "drive2"; relative_path = some "note.md"; meta = no_meta }

-- the version that the tombstone's vector replaces
abbrev older_file : FileEntry
older_file = record laptop_file { version = record { counters = ("laptop00", pos 7) ∷ [] } }

deletes_older :
    IsLocalDelete
      (decide_without_state world "note.md" (some older_file) none (some listed) state).0
unfolding decide_without_state non_empty decode lookup int_of_text insert compare all_keys union
    keys ordering_of covers all_of counter drop_chars
deletes_older = tt

local_delete-Tombstoned_example : Tombstoned (some older_file) none (some listed)
local_delete-Tombstoned_example =
    local_delete-Tombstoned world "note.md" (some older_file) none (some listed) state deletes_older

contents_differ :
    same_md5
      (world.compute_md5 "note.md")
      (or_option listed.meta.api_md5_checksum (decode listed.meta.api_app_properties).2)
    ≡ false
unfolding same_md5 or_option truthy_text
contents_differ = refl
