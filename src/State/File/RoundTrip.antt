-- ===== src/State/File/RoundTrip.antt =====
-- What is written to the state file is what is loaded from it.
use obsidian_sync.Base.{
  String, true, false, ◌||◌, ◌≡◌, refl, subst, ap, ◌∙◌, none, some, List, [], ◌∷◌, ℤ, Dict, insert,
  insert_all, insert_all-Fresh, Fresh-nil, Distinct, contains, contains-sort_texts, if◌then◌else◌,
  some_or, sort_texts, arith, ◌==◌, eq_iff, Bool-cases, inl, inr,
}
use obsidian_sync.Vector.{empty, non_empty, from_dict, to_dict}
use obsidian_sync.State.{FileEntry, SyncState}
use obsidian_sync.State.File.{
  entry_to_dict, entry_from_dict, files_to_dict, load_files, json, StateDir, Faults, state_json,
  write_state_file, load, loaded, fill_state, load_json, is_v1, add_id,
}

version_restored :
    (c : Dict ℤ)
    → from_dict (
        if non_empty (record { counters = c })
        then some (to_dict (record { counters = c }))
        else none)
      ≡ record { counters = c }
unfolding from_dict non_empty to_dict empty
version_restored [] = refl
version_restored (e ∷ c) = refl

entry_from_dict-entry_to_dict : (e : FileEntry) → entry_from_dict (entry_to_dict e) ≡ some e
unfolding entry_from_dict entry_to_dict
entry_from_dict-entry_to_dict e =
    let marked : some_or (if e.deleted then some true else none) false ≡ e.deleted = ground arith in
    rw (version_restored e.version.counters, marked)

load_files-files_to_dict :
    (acc d : Dict FileEntry) → load_files acc (files_to_dict d) ≡ (insert_all acc d, false)
unfolding load_files files_to_dict insert_all
load_files-files_to_dict acc [] = refl
load_files-files_to_dict acc ((path, e) ∷ d) =
    rw (entry_from_dict-entry_to_dict e, load_files)
      (load_files-files_to_dict (insert path e acc) d)

-- The memory after loading has what was written; the set of known devices has the device itself too.
pub record Restores (written s : SyncState) : Type 0 where
  pub files : s.files ≡ written.files
  pub device_id : s.device_id ≡ written.device_id
  pub page_token : s.page_token ≡ written.page_token
  pub last_synced_at : s.last_synced_at ≡ written.last_synced_at
  pub known_device_ids :
      (id : String)
      → contains s.known_device_ids id
        ≡ (written.device_id == id) || contains written.known_device_ids id

contains-add_id :
    (id : String) (ids : List String) (k : String)
    → contains (add_id id ids) k ≡ (id == k) || contains ids k
unfolding add_id contains
contains-add_id id ids k = elim (Bool-cases (contains ids id)) [
  | inl there ↦ rw there (elim (Bool-cases (id == k)) [
    | inl same ↦ rw same (subst (λ j. contains ids j ≡ true) ((eq_iff id k).0 same) there)
    | inr other ↦ rw other
  ])
  | inr absent ↦ rw absent
]

fill_state-Restores :
    (config_device_id : String) (written s : SyncState)
    → Distinct written.files
    → (Restores written (fill_state config_device_id (state_json written) s).0)
      × ((fill_state config_device_id (state_json written) s).1 ≡ false)
unfolding fill_state state_json
fill_state-Restores config_device_id written s u =
    rw
      (
        load_files-files_to_dict [] written.files,
        insert_all-Fresh [] written.files u (Fresh-nil FileEntry written.files),
      )
      (
        record {
          files = refl;
          device_id = refl;
          page_token = refl;
          last_synced_at = refl;
          known_device_ids = λ id.
              contains-add_id written.device_id (sort_texts written.known_device_ids) id
              ∙ ap (λ b. (written.device_id == id) || b)
                  (contains-sort_texts written.known_device_ids id);
        },
        refl,
      )

load_json-Restores :
    (config_device_id : String) (g : Faults) (d : StateDir) (written s : SyncState)
    → Distinct written.files
    → let r = load_json config_device_id g false (state_json written) d s in
      (r.0 ≡ d) × (Restores written r.1) × (r.2 ≡ loaded)
unfolding load_json
load_json-Restores config_device_id g d written s u =
    let (restored, fine) = fill_state-Restores config_device_id written s u in
    rw fine (refl, restored, refl)

-- After a state was written without a fault, loading it, into any memory and with any faults, succeeds,
-- leaves the files as they are, and restores the state, if its paths are distinct.
pub load-write_state_file :
    (config_device_id : String) (f g : Faults) (d : StateDir) (written s : SyncState)
    → f.write ≡ false
    → Distinct written.files
    → let d' = (write_state_file f d written).0 in
      let r = load config_device_id g d' s in (r.0 ≡ d') × (Restores written r.1) × (r.2 ≡ loaded)
unfolding load write_state_file is_v1
load-write_state_file config_device_id f g d written s ok u = rw ok (
    load_json-Restores config_device_id g
      (record d { state_file = some (json (state_json written)) }) written s u)
