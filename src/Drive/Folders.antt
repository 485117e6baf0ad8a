-- ===== src/Drive/Folders.antt =====
-- src/drive_client.py: which changes are of the vault. `_is_in_vault`, `_is_under_vault` and
-- `_normalize_change`, with the caches that they fill. A set of ids is a list of its members.
pub mod Ancestry
pub mod Depth
mod Tests
use obsidian_sync.Base.{
  ℕ, zero, suc, String, Bool, true, false, not, ◌&&◌, ◌||◌, Option, none, some, List, [], ◌∷◌, ◌++◌,
  Dict, contains, union, values, if◌then◌else◌, ◌==◌,
}
use obsidian_sync.Drive.{ApiFile, Change, normalized}

pub record Caches : Type 0 where
  pub folder_cache : Dict String
  pub folder_id_to_rel : Dict String
  pub vault_folder_ids : List String
  pub non_vault_ids : List String
  pub tombstones_folder_id : Option String

abbrev pub mime_folder : String
mime_folder = "application/vnd.google-apps.folder"

unfoldable pub add_vault : List String → Caches → Caches
add_vault ids c = record c { vault_folder_ids = union c.vault_folder_ids ids }

unfoldable pub add_non_vault : List String → Caches → Caches
add_non_vault ids c = record c { non_vault_ids = union c.non_vault_ids ids }

-- one change of the Changes API
pub record ApiChange : Type 0 where
  pub file_id : String
  pub removed : Bool
  pub file : Option ApiFile

-- what the loop of `_is_under_vault` does after the request for a folder's parents
pub data Climb : Type 0 where
  outside inside : Climb
  further : String → Climb

unfoldable pub climb_step : Caches → Option (List String) → Climb
climb_step c none = outside
climb_step c (some []) = outside
climb_step c (some (parent_id ∷ others)) =
    if contains c.vault_folder_ids parent_id
    then inside
    else if contains c.non_vault_ids parent_id
    then outside
    else further parent_id

-- `get_parents` is the answer to that request, `none` for an exception.
module _ (get_parents : String → Option (List String)) where
  -- The loop from the folder `current`, `path_ids` being those on the way; `none` if the fuel is too
  -- little.
  unfoldable pub climb : ℕ → List String → String → Caches → Option (Caches × Bool)
  unfolding add_vault add_non_vault climb_step
  climb zero path_ids current c = none
  climb (suc fuel) path_ids current c = elim (climb_step c (get_parents current)) [
    | outside ↦ some (add_non_vault path_ids c, false)
    | inside ↦ some (add_vault path_ids c, true)
    | further parent_id ↦ climb fuel (path_ids ++ (parent_id ∷ [])) parent_id c
  ]

  unfoldable pub is_under_vault : ℕ → String → Caches → Option (Caches × Bool)
  unfolding climb
  is_under_vault fuel folder_id c =
      if contains c.vault_folder_ids folder_id
      then some (c, true)
      else if contains c.non_vault_ids folder_id
      then some (c, false)
      else climb fuel (folder_id ∷ []) folder_id c

  -- the loop of `_is_in_vault` over the parents
  unfoldable pub is_in_vault : ℕ → List String → Caches → Option (Caches × Bool)
  unfolding is_under_vault
  is_in_vault fuel [] c = some (c, false)
  is_in_vault fuel (parent_id ∷ parents) c =
      if contains c.vault_folder_ids parent_id
      then some (c, true)
      else if contains c.non_vault_ids parent_id
      then is_in_vault fuel parents c
      else elim (is_under_vault fuel parent_id c) [
        | none ↦ none
        | some (c', true) ↦ some (c', true)
        | some (c', false) ↦ is_in_vault fuel parents c'
      ]

  -- a removal without metadata
  unfoldable pub removal : String → Caches → Option Change
  removal file_id c =
      if contains (values c.folder_cache) file_id || contains c.vault_folder_ids file_id
      then some (record {
        file_id = file_id;
        removed = true;
        file = none;
        app_properties = none;
        parents = none;
      })
      else none

  -- a change inside the vault
  unfoldable pub vault_change : String → Bool → ApiFile → Caches → Caches × Option Change
  unfolding add_vault normalized
  vault_change file_id removed f c =
      let is_folder : Bool = elim f.mime_type [ none ↦ false | some mime ↦ mime == mime_folder ] in
      if is_folder && not f.trashed
      then (add_vault (file_id ∷ []) c, none)
      else (c, some (normalized c.tombstones_folder_id file_id removed f))

  unfoldable pub normalize_change : ℕ → ApiChange → Caches → Option (Caches × Option Change)
  unfolding is_in_vault removal vault_change
  normalize_change fuel change c = elim change.file [
    | none ↦ some (c, if change.removed then removal change.file_id c else none)
    | some f ↦ elim (is_in_vault fuel f.parents c) [
      | none ↦ none
      | some (c', false) ↦ some (c', none)
      | some (c', true) ↦ some (vault_change change.file_id change.removed f c')
    ]
  ]
