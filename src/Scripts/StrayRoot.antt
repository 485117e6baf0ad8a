-- ===== src/Scripts/StrayRoot.antt =====
-- scripts/cleanup_stray_root_files.py: copies that a bug left at the root of the vault.
pub mod Stray
pub mod Spared
mod Tests
use Prim.Native.Char.{Char, code}
use Prim.Native.String.{◌++◌ as ◌+text◌}
use text.Mathlib.Text.{starts_with}
use obsidian_sync.Base.{
  ℕ, zero, suc, ◌+◌, String, Bool, true, false, not, ◌&&◌, ◌||◌, Option, none, some, List, [], ◌∷◌,
  Dict, lookup, insert, remove, contains, keys, eqb, leb, if◌then◌else◌, truthy_text, ◌==◌,
  drop_chars, is_slash, last_segment,
}
use obsidian_sync.Vault.{Vault}
use obsidian_sync.Scripts.{is_root_path, index_by, indexed, filtered}

-- a part of the pattern `-\d{8}-\d{6}\.`
pub data Part : Type 0 where
  dash digit dot : Part

unfoldable pub fits_part : Part → Char → Bool
fits_part dash c = eqb (code c) 45
fits_part digit c = leb 48 (code c) && leb (code c) 57
fits_part dot c = eqb (code c) 46

unfoldable pub fits : List Part → String → Bool
unfolding fits_part
fits [] s = true
fits (part ∷ parts) String.[] = false
fits (part ∷ parts) (String.◌∷◌ c s) = if fits_part part c then fits parts s else false

abbrev pub stamp : List Part
stamp =
    dash ∷ digit ∷ digit ∷ digit ∷ digit ∷ digit ∷ digit ∷ digit ∷ digit ∷ dash ∷ digit ∷ digit
    ∷ digit ∷ digit ∷ digit ∷ digit ∷ dot ∷ []

-- `[^.]+-\d{8}-\d{6}\.` at the front of the text, after so much of the first part or none
unfoldable pub device_and_stamp : Bool → String → Bool
unfolding fits
device_and_stamp started String.[] = false
device_and_stamp started (String.◌∷◌ c s) =
    (started && fits stamp (String.◌∷◌ c s)) || (not (eqb (code c) 46) && device_and_stamp true s)

-- `CONFLICT_PATTERN.search(rel)`; its digits are the ASCII ones
unfoldable pub is_conflict_name : String → Bool
unfolding device_and_stamp drop_chars
is_conflict_name String.[] = false
is_conflict_name (String.◌∷◌ c s) =
    (starts_with (String.◌∷◌ c s) ".conflict-"
      && device_and_stamp false (drop_chars 10 (String.◌∷◌ c s)))
    || is_conflict_name s

pub data Reason : Type 0 where
  conflict_copy_at_root duplicate_of_subfolder_original samename_in_subfolder : Reason

pub record Candidate : Type 0 where
  pub path : String
  pub drive_id : Option String
  pub reason : Reason
  pub original_path : Option String

-- an item of the state's files, and its `drive_id`
abbrev pub StateItem : Type 0
StateItem = String × Option String

-- the drive id, unless there is none or it is empty
unfoldable pub drive_key : StateItem → Option String
unfolding truthy_text
drive_key (path, none) = none
drive_key (path, some id) = if truthy_text id then some id else none

unfoldable pub name_key : StateItem → Option String
unfolding last_segment
name_key (path, id) = some (last_segment path)

-- the test of both comprehensions
unfoldable pub is_original : String → StateItem → Bool
unfolding is_root_path
is_original path item = not (item.0 == path) && not (is_root_path item.0)

-- the third test, by the paths that it finds
unfoldable pub samename : StateItem → List StateItem → Option Candidate
samename (path, id) [] = none
samename (path, id) (original ∷ others) = some (record {
  path = path;
  drive_id = id;
  reason = samename_in_subfolder;
  original_path = some original.0;
})

-- the second test, and the third where it finds nothing
unfoldable pub duplicate : StateItem → List StateItem → Option Candidate → Option Candidate
duplicate (path, id) [] otherwise = otherwise
duplicate (path, id) (original ∷ others) otherwise = some (record {
  path = path;
  drive_id = id;
  reason = duplicate_of_subfolder_original;
  original_path = some original.0;
})

-- the originals by the drive id, if there is one
unfoldable pub same_drive_id : Dict (List StateItem) → StateItem → List StateItem
unfolding drive_key indexed filtered is_original
same_drive_id by_drive_id item = elim (drive_key item) [
  | none ↦ []
  | some id ↦ filtered (is_original item.0) (indexed id by_drive_id)
]

-- the body of the loop over the files
unfoldable pub candidate_of :
    Dict (List StateItem) → Dict (List StateItem) → StateItem → Option Candidate
unfolding is_root_path is_conflict_name same_drive_id duplicate samename indexed filtered
    is_original
candidate_of by_drive_id by_basename item =
    if is_root_path item.0
    then (if is_conflict_name item.0
        then some (record {
          path = item.0;
          drive_id = item.1;
          reason = conflict_copy_at_root;
          original_path = none;
        })
        else duplicate item (same_drive_id by_drive_id item)
            (samename item (filtered (is_original item.0) (indexed item.0 by_basename))))
    else none

unfoldable pub candidates_of : (StateItem → Option Candidate) → List StateItem → List Candidate
candidates_of candidate [] = []
candidates_of candidate (item ∷ items) =
    let rest = candidates_of candidate items in
    elim (candidate item) [ none ↦ rest | some c ↦ c ∷ rest ]

unfoldable pub find_candidates : Dict (Option String) → List Candidate
unfolding index_by drive_key name_key candidate_of candidates_of
find_candidates files =
    candidates_of (candidate_of (index_by drive_key files []) (index_by name_key files [])) files

-- `rel.replace("/", "__")`
unfoldable pub flat : String → String
flat String.[] = String.[]
flat (String.◌∷◌ c s) = if is_slash c then "__" +text flat s else String.◌∷◌ c (flat s)

abbrev pub trash_dir : String
trash_dir = ".sync/trash/cleanup_stray_root/"

-- what is done to the local file of a candidate
pub data Clearing : Type 0 where
  cleared : Vault → ℕ → Clearing
  skipped crashed : Clearing

-- the vault, the files of the state, and the two counts
pub record Cleanup : Type 0 where
  pub vault : Vault
  pub files : Dict (Option String)
  pub removed_files : ℕ
  pub removed_state : ℕ

-- what follows the prefix, if the text begins with it
unfoldable pub after_prefix : String → String → Option String
after_prefix String.[] s = some s
after_prefix (String.◌∷◌ c prefix) String.[] = none
after_prefix (String.◌∷◌ c prefix) (String.◌∷◌ d s) =
    let rest = after_prefix prefix s in if eqb (code c) (code d) then rest else none

-- `shutil.move` of a folder: the files below it go with it
unfoldable pub move_below : String → Vault → Vault
unfolding after_prefix flat
move_below rel [] = []
move_below rel ((path, file) ∷ vault) =
    let rest = move_below rel vault in
    elim (after_prefix (rel +text "/") path) [
      | none ↦ (path, file) ∷ rest
      | some below ↦ (trash_dir +text (flat rel +text ("/" +text below)), file) ∷ rest
    ]

-- Where a folder stands, and whether something can be moved to the trash, in which nothing has its name
-- yet, or a file be unlinked, are parameters.
module _ (use_trash : Bool) (is_folder movable unlinkable : String → Bool) where
  -- a folder, which `unlink` raises for
  unfoldable pub clear_folder : String → Vault → Clearing
  unfolding move_below
  clear_folder rel vault =
      if use_trash
      then (if movable rel then cleared (move_below rel vault) 1 else crashed)
      else skipped

  unfoldable pub clear_local : String → Vault → Clearing
  unfolding lookup insert remove flat clear_folder
  clear_local rel vault = elim (lookup rel vault) [
    | none ↦ if is_folder rel then clear_folder rel vault else cleared vault 0
    | some file ↦
        if use_trash
        then (if movable rel
            then cleared (insert (trash_dir +text flat rel) file (remove rel vault)) 1
            else crashed)
        else if unlinkable rel
        then cleared (remove rel vault) 1
        else skipped
  ]

  -- the end of the loop's body
  unfoldable pub forget : String → Vault → ℕ → Cleanup → Cleanup
  unfolding contains keys remove
  forget rel vault moved c = record {
    vault = vault;
    files = remove rel c.files;
    removed_files = c.removed_files + moved;
    removed_state = c.removed_state + (if contains (keys c.files) rel then 1 else 0);
  }

  -- The loop over the candidates, with the vault where it crashed.
  unfoldable pub clear_all : List Candidate → Cleanup → Vault × Option Cleanup
  unfolding clear_local forget
  clear_all [] c = (c.vault, some c)
  clear_all (candidate ∷ candidates) c = elim (clear_local candidate.path c.vault) [
    | cleared vault moved ↦ clear_all candidates (forget candidate.path vault moved c)
    | skipped ↦ clear_all candidates c
    | crashed ↦ (c.vault, none)
  ]

  -- The vault after it, and the written files of the state with the counts, if it does not crash.
  unfoldable pub apply_cleanup :
      List Candidate → Vault → Dict (Option String) → Vault × Option Cleanup
  unfolding clear_all
  apply_cleanup candidates vault files =
      clear_all candidates
        (record { vault = vault; files = files; removed_files = 0; removed_state = 0 })

  -- The script with a state file that is there, by its flag `--apply`.
  unfoldable pub main : Bool → Vault → Dict (Option String) → Vault × Option Cleanup
  unfolding apply_cleanup find_candidates
  main apply vault files =
      if apply then apply_cleanup (find_candidates files) vault files else (vault, none)
