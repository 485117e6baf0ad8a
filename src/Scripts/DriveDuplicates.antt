-- ===== src/Scripts/DriveDuplicates.antt =====
-- scripts/cleanup_drive_root_duplicates.py: copies in Drive at the root of the vault. An id of a listed
-- file is always there.
pub mod Doubled
mod Tests
use obsidian_sync.Base.{
  ℤ, ℕ, zero, suc, ◌+◌, String, Bool, true, false, not, ◌&&◌, Option, none, some, List, [], ◌∷◌,
  Dict, if◌then◌else◌, truthy_text, some_or, ◌==◌, has_char, last_segment,
}
use obsidian_sync.Drive.{ListedFile}
use obsidian_sync.Drive.Retry.{Executed, returned, file_missing, token_gone, passed_on}
use obsidian_sync.Drive.Client.{Service, Session}
use obsidian_sync.Drive.Client.Content.{hard_delete}
use obsidian_sync.Scripts.{is_root_path, index_by, indexed, filtered}

-- `item.get("relative_path") or item.get("name", "")`
unfoldable pub rel_of : ListedFile → String
unfolding truthy_text
rel_of item =
    let name = some_or item.meta.name "" in
    elim item.relative_path [ none ↦ name | some path ↦ if truthy_text path then path else name ]

unfoldable pub basename_of : ListedFile → Option String
unfolding rel_of last_segment
basename_of item = some (last_segment (rel_of item))

pub record Duplicate : Type 0 where
  pub id : String
  pub name : String
  pub size : Option ℤ
  pub original_path : Option String

-- the test of the comprehension
unfoldable pub is_other_in_subfolder : ListedFile → ListedFile → Bool
unfolding has_char
is_other_in_subfolder item other =
    not (other.id == item.id) && has_char 47 (some_or other.relative_path "")

unfoldable pub duplicate_with : ListedFile → List ListedFile → Option Duplicate
unfolding rel_of
duplicate_with item [] = none
duplicate_with item (other ∷ others) = some (record {
  id = item.id;
  name = rel_of item;
  size = item.meta.api_size;
  original_path = other.relative_path;
})

-- the body of the loop
unfoldable pub duplicate_of : Dict (List ListedFile) → ListedFile → Option Duplicate
unfolding is_root_path rel_of indexed filtered is_other_in_subfolder duplicate_with
duplicate_of by_basename item =
    if is_root_path (rel_of item)
    then duplicate_with item
        (filtered (is_other_in_subfolder item) (indexed (rel_of item) by_basename))
    else none

unfoldable pub duplicates_of : (ListedFile → Option Duplicate) → List ListedFile → List Duplicate
duplicates_of duplicate [] = []
duplicates_of duplicate (item ∷ items) =
    let rest = duplicates_of duplicate items in
    elim (duplicate item) [ none ↦ rest | some d ↦ d ∷ rest ]

unfoldable pub find_duplicates : List ListedFile → List Duplicate
unfolding index_by basename_of duplicate_of duplicates_of
find_duplicates all_files =
    duplicates_of (duplicate_of (index_by basename_of all_files [])) all_files

-- whether a request has returned
unfoldable pub one_moved : Executed (Unit {0}) → ℕ
one_moved (returned done) = 1
one_moved (file_missing id) = 0
one_moved token_gone = 0
one_moved passed_on = 0

module _ (service : Service) where
  -- the loop over the candidates, with the count
  unfoldable pub trash_all : List Duplicate → Session → ℕ → Session × ℕ
  unfolding hard_delete one_moved
  trash_all [] s moved = (s, moved)
  trash_all (d ∷ ds) s moved =
      let (s', done) = hard_delete service d.id s in trash_all ds s' (moved + one_moved done)

  -- the script after the listing, by its flag `--apply`
  unfoldable pub clean_up : Bool → List ListedFile → Session → Session × ℕ
  unfolding find_duplicates trash_all
  clean_up apply all_files s = if apply then trash_all (find_duplicates all_files) s 0 else (s, 0)
