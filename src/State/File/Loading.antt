-- ===== src/State/File/Loading.antt =====
-- What `load` does with a file that it cannot use, and with one of the first version.
use obsidian_sync.Base.{
  ℕ, zero, suc, String, Bool, true, false, ◌≡◌, refl, subst, sym, ap, ◌∙◌, Option, none, some, [],
  ◌∷◌, Dict, insert, some_or, if◌then◌else◌,
}
use obsidian_sync.State.{FileEntry, SyncState}
use obsidian_sync.State.File.{
  EntryJson, Content, json, garbled, StateDir, Faults, StateJson, state_json, write_state_file,
  save_now, load, load_content, entry_from_dict, load_files, Loaded, loaded, not_loaded, fill_state,
  load_json, is_v1, backup_corrupt_state, backup_v1_state,
}

-- a file that is not JSON, or of another version than 1 and 2
abbrev pub IsUnusable : Option Content → Type 0
IsUnusable none = ⊥
IsUnusable (some garbled) = Unit
IsUnusable (some (json j)) = (¬ (j.version ≡ some 1)) × (¬ (j.version ≡ some 2))

is_v1-unsupported : (v : Option ℕ) → ¬ (v ≡ some 1) → ¬ (v ≡ some 2) → is_v1 v ≡ none
unfolding is_v1
is_v1-unsupported none not_1 not_2 = refl
is_v1-unsupported (some zero) not_1 not_2 = refl
is_v1-unsupported (some (suc zero)) not_1 not_2 = absurd (not_1 refl)
is_v1-unsupported (some (suc (suc zero))) not_1 not_2 = absurd (not_2 refl)
is_v1-unsupported (some (suc (suc (suc n)))) not_1 not_2 = refl

load_content_unusable :
    (config_device_id : String) (f : Faults) (d : StateDir) (s : SyncState) (c : Option Content)
    → IsUnusable c
    → load_content config_device_id f c d s ≡ (backup_corrupt_state f d, s, not_loaded)
unfolding load_content
load_content_unusable config_device_id f d s none b = absurd b
load_content_unusable config_device_id f d s (some garbled) b = refl
load_content_unusable config_device_id f d s (some (json j)) b =
    rw (is_v1-unsupported j.version b.0 b.1, load_content)

-- A state file that is no JSON, or whose version is neither 1 nor 2, is not loaded: it is moved to
-- the backup, and the memory stays as it is; if moving fails, the files stay as they are too.
pub load_unusable :
    (config_device_id : String) (f : Faults) (d : StateDir) (s : SyncState)
    → IsUnusable d.state_file
    → load config_device_id f d s ≡ (
      if f.rename then d else record d { state_file = none; backup = d.state_file },
      s,
      not_loaded,
    )
unfolding load backup_corrupt_state
load_unusable config_device_id f d s bad =
    load_content_unusable config_device_id f d s d.state_file bad

-- An entry has what `from_dict` cannot do without.
abbrev pub IsComplete : Dict EntryJson → Type 0
IsComplete [] = Unit
IsComplete ((path, j) ∷ d) = ((e : FileEntry) × (entry_from_dict j ≡ some e)) × IsComplete d

load_files_complete :
    (acc : Dict FileEntry) (d : Dict EntryJson) → IsComplete d → (load_files acc d).1 ≡ false
unfolding load_files
load_files_complete acc [] h = refl
load_files_complete acc ((path, j) ∷ d) h =
    rw (h.0.1, load_files) (load_files_complete (insert path h.0.0 acc) d h.1)

-- the object of a version 1 file
abbrev pub IsV1 : StateJson → Type 0
IsV1 j = (j.version ≡ some 1) × IsComplete (some_or j.files [])

fill_state_complete :
    (config_device_id : String) (j : StateJson) (s : SyncState)
    → IsComplete (some_or j.files [])
    → (fill_state config_device_id j s).1 ≡ false
unfolding fill_state
fill_state_complete config_device_id j s h = load_files_complete [] (some_or j.files []) h

migrates_json :
    (config_device_id : String) (f : Faults) (j : StateJson) (d : StateDir) (s : SyncState)
    → IsComplete (some_or j.files [])
    → let r = load_json config_device_id f true j d s in
      (r.2 ≡ loaded) × (r.0 ≡ (write_state_file f d r.1).0)
unfolding load_json save_now write_state_file state_json
migrates_json config_device_id f j d s h =
    rw (fill_state_complete config_device_id j s h) (refl, refl)

load_v1 :
    (config_device_id : String) (f : Faults) (j : StateJson) (d : StateDir) (s : SyncState)
    → d.state_file ≡ some (json j)
    → j.version ≡ some 1
    → f.copy ≡ false
    → load config_device_id f d s
      ≡ load_json config_device_id f true j (record d { v1_backup = d.state_file }) s
unfolding load load_content backup_v1_state is_v1
load_v1 config_device_id f j d s held v1 copied =
    ap (λ c. load_content config_device_id f c d s) held
    ∙ ap (λ v. versioned (is_v1 v)) v1
    ∙ ap
        (λ (b : Bool).
          load_json config_device_id f true j
            (if b then d else record d { v1_backup = d.state_file }) s)
        copied
  where
    versioned : Option Bool → StateDir × SyncState × Loaded
    versioned v = elim v [
      | none ↦ (backup_corrupt_state f d, s, not_loaded)
      | some true ↦ load_json config_device_id f true j (backup_v1_state f d) s
      | some false ↦ load_json config_device_id f false j d s
    ]

-- A file of version 1 in which every entry is complete is loaded. Its old content is kept beside it,
-- and what is in memory afterwards is written at once, as version 2.
pub load_migrates :
    (config_device_id : String) (f : Faults) (j : StateJson) (d : StateDir) (s : SyncState)
    → d.state_file ≡ some (json j)
    → IsV1 j
    → f.copy ≡ false
    → let r = load config_device_id f d s in
      (r.2 ≡ loaded) × (r.0 ≡ (write_state_file f (record d { v1_backup = d.state_file }) r.1).0)
load_migrates config_device_id f j d s held v1 copied =
    let d' = record d { v1_backup = d.state_file } in
    subst (λ r. (r.2 ≡ loaded) × (r.0 ≡ (write_state_file f d' r.1).0))
      (sym (load_v1 config_device_id f j d s held v1.0 copied))
      (migrates_json config_device_id f j d' s v1.1)
