-- ===== src/Drive/Resolve.antt =====
-- src/drive_client.py: `resolve_vault_rel_path`, from the parents of a file to its path in the vault.
pub mod Placed
mod Tests
use Prim.Native.String.{◌++◌ as ◌+text◌}
use obsidian_sync.Base.{
  ℕ, zero, suc, String, Bool, true, false, Option, none, some, List, [], ◌∷◌, map, Dict, lookup,
  insert, contains, union, if◌then◌else◌, truthy_text, ◌==◌,
}
use obsidian_sync.Drive.Folders.{Caches, add_vault, add_non_vault}

-- the answer to the request for a folder's name and parents
pub data FolderReply : Type 0 where
  folder_meta : String → List String → FolderReply
  folder_missing folder_error : FolderReply

-- f"{rel}/{name}" if rel else name
unfoldable pub join_path : String → String → String
join_path rel name = if truthy_text rel then rel +text "/" +text name else name

-- The caches when the folder is known to have this path.
unfoldable pub register : String → String → Caches → Caches
unfolding add_vault
register id rel c = add_vault (id ∷ []) (record c {
  folder_cache = insert rel id c.folder_cache;
  folder_id_to_rel = insert id rel c.folder_id_to_rel;
})

-- the loop over the collected folders, the last one first
unfoldable pub descend : String → List (String × String) → Caches → Caches × String
unfolding join_path register
descend rel [] c = (c, rel)
descend rel ((id, segment) ∷ visited) c =
    let below = join_path rel segment in descend below visited (register id below c)

-- what a turn of the loop finds
pub data Turn : Type 0 where
  known : String → Turn
  foreign vanished unread : Turn
  -- the folder's name, and whether it has a parent
  climbing : String → String → Turn
  topmost : Turn

unfoldable pub answer_turn : FolderReply → Turn
answer_turn (folder_meta segment []) = topmost
answer_turn (folder_meta segment (parent_id ∷ others)) = climbing segment parent_id
answer_turn folder_missing = vanished
answer_turn folder_error = unread

module _ (get_folder : String → FolderReply) where
  unfoldable pub turn : String → Caches → Turn
  unfolding answer_turn
  turn current c = elim (lookup current c.folder_id_to_rel) [
    | some rel ↦ known rel
    | none ↦ if contains c.non_vault_ids current then foreign else answer_turn (get_folder current)
  ]

  -- the ids of the collected folders
  abbrev pub path_ids : List (String × String) → List String
  path_ids visited = map (λ v. v.0) visited

  -- the loop, with so many turns left
  unfoldable pub trace :
      ℕ → String → String → List (String × String) → Caches → Caches × Option String
  unfolding turn descend join_path add_non_vault
  trace zero name current visited c = (c, none)
  trace (suc depth) name current visited c = elim (turn current c) [
    | known rel ↦ ((descend rel visited c).0, some (join_path (descend rel visited c).1 name))
    | foreign ↦ (add_non_vault (path_ids visited) c, none)
    | vanished ↦ (add_non_vault (current ∷ path_ids visited) c, none)
    | unread ↦ (c, none)
    | topmost ↦ (add_non_vault (current ∷ path_ids visited) c, none)
    | climbing segment parent_id ↦ trace depth name parent_id ((current, segment) ∷ visited) c
  ]

  unfoldable pub resolve_vault_rel_path :
      String → List String → String → Caches → Caches × Option String
  unfolding trace join_path
  resolve_vault_rel_path root [] name c = (c, none)
  resolve_vault_rel_path root (parent_id ∷ others) name c =
      if truthy_text name
      then if parent_id == root
        then (c, some name)
        else if contains c.non_vault_ids parent_id
        then (c, none)
        else elim (lookup parent_id c.folder_id_to_rel) [
          | some rel ↦ (c, some (join_path rel name))
          | none ↦ trace 32 name parent_id [] c
        ]
      else (c, none)
