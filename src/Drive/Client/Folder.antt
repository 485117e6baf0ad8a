-- ===== src/Drive/Client/Folder.antt =====
-- src/drive_client.py: finding and creating folders, and finding files.
pub mod Added
pub mod Ensured
pub mod ReadOnly
pub mod Quoted
use Prim.Native.Char.{Char, code}
use Prim.Native.String.{◌++◌ as ◌+text◌}
use obsidian_sync.Base.{
  ℕ, String, Bool, true, false, ◌||◌, Option, none, some, List, [], ◌∷◌, lookup, if◌then◌else◌, eqb,
  ◌==◌, truthy_text, segments, split_last, strip_slashes,
}
use obsidian_sync.Drive.Folders.{Caches, mime_folder}
use obsidian_sync.Drive.Resolve.{register}
use obsidian_sync.Drive.Retry.{Executed, returned, file_missing, token_gone, passed_on}
use obsidian_sync.Drive.Client.{
  Service, Session, Client, Stored, Body, empty_body, Call, list_files, create_file, and_then,
  ◌>>=◌, ◌>>◌, pure, session, modify, list_ids, create,
}

-- `name.replace("'", "\\'")`
unfoldable pub escape_quotes : String → String
escape_quotes String.[] = String.[]
escape_quotes (String.◌∷◌ c s) =
    if eqb (code c) 39
    then String.◌∷◌ "\\" (String.◌∷◌ "'" (escape_quotes s))
    else String.◌∷◌ c (escape_quotes s)

unfoldable pub folder_query : String → String → String
unfolding escape_quotes
folder_query name parent_id =
    "name='"
    +text escape_quotes name
    +text "' and '"
    +text parent_id
    +text "' in parents and mimeType='"
    +text mime_folder
    +text "' and trashed=false"

unfoldable pub file_query : String → String → String
unfolding escape_quotes
file_query name parent_id =
    "name='"
    +text escape_quotes name
    +text "' and '"
    +text parent_id
    +text "' in parents and mimeType!='"
    +text mime_folder
    +text "' and trashed=false"

-- `files[0]["id"] if files else None`
unfoldable pub first_id : List String → Option String
first_id [] = none
first_id (id ∷ ids) = some id

-- the cached id, unless it is empty
unfoldable pub cached : String → Session → Option String
unfolding lookup truthy_text
cached path s = elim (lookup path s.caches.folder_cache) [
  | none ↦ none
  | some id ↦ if truthy_text id then some id else none
]

-- `not rel_folder_path or rel_folder_path == "."`
unfoldable pub is_root : String → Bool
is_root path = if truthy_text path then path == "." else true

-- the caches after a folder has been found or created
unfoldable pub remember : String → String → Session → Session
unfolding register
remember built id s = record s { caches = register id built s.caches }

-- the folder and the name of a path
unfoldable pub parent_and_name : String → String × String
unfolding split_last
parent_and_name path = elim (split_last path) [ some split ↦ split | none ↦ ("", path) ]

module _ (service : Service) where
  unfoldable pub find_folder : String → String → Client (Option String)
  unfolding folder_query first_id list_ids
  find_folder name parent_id = do
    let query = folder_query name parent_id
    ids ← list_ids service query
    pure (first_id ids)

  unfoldable pub create_folder : String → String → Client String
  unfolding create
  create_folder name parent_id = do
    let body : Body = record empty_body {
      name = some name;
      mime_type = some mime_folder;
      parent = some parent_id;
    }
    made ← create service body
    pure made.id

  -- `if not folder_id: folder_id = create_folder(...)`
  unfoldable pub or_create : String → String → Option String → Client String
  unfolding create_folder truthy_text
  or_create part parent_id none = create_folder part parent_id
  or_create part parent_id (some id) =
      if truthy_text id then pure id else create_folder part parent_id

  -- a part that is not cached
  unfoldable pub add_folder : String → String → String → Client String
  unfolding find_folder or_create remember
  add_folder part parent_id built = do
    found ← find_folder part parent_id
    id ← or_create part parent_id found
    modify (remember built id)
    pure id

  -- the folder of one part of the path
  unfoldable pub ensure_folder : String → String → String → Client String
  unfolding cached add_folder
  ensure_folder part parent_id built s = elim (cached built s) [
    | some id ↦ (s, returned id)
    | none ↦ add_folder part parent_id built s
  ]

  -- the loop over the parts
  unfoldable pub ensure_parts : List String → String → String → Client String
  unfolding ensure_folder strip_slashes
  ensure_parts [] parent_id built = pure parent_id
  ensure_parts (part ∷ parts) parent_id built = do
    let longer = strip_slashes (built +text "/" +text part)
    id ← ensure_folder part parent_id longer
    ensure_parts parts id longer

  unfoldable pub ensure_folder_path : String → Client String
  unfolding is_root cached ensure_parts segments
  ensure_folder_path path s = if is_root path then (s, returned s.root) else elim (cached path s) [
    | some id ↦ (s, returned id)
    | none ↦ ensure_parts (segments path) s.root "" s
  ]

  -- the loop over the parts, which creates nothing
  unfoldable pub find_parts : List String → String → String → Client (Option String)
  unfolding find_folder remember strip_slashes
  find_parts [] parent_id built = pure (some parent_id)
  find_parts (part ∷ parts) parent_id built = do
    let longer = strip_slashes (built +text "/" +text part)
    child ← find_folder part parent_id
    elim child as (λ x. Client (Option String)) [
      | none ↦ pure none
      | some id ↦ modify (remember longer id) >> find_parts parts id longer
    ]

  unfoldable pub find_folder_path : String → Client (Option String)
  unfolding is_root cached find_parts segments
  find_folder_path path s =
      if is_root path then (s, returned (some s.root)) else elim (cached path s) [
        | some id ↦ (s, returned (some id))
        | none ↦ find_parts (segments path) s.root "" s
      ]

  -- the last request of `find_file_by_rel_path`
  unfoldable pub find_file_in : String → Option String → Client (Option String)
  unfolding file_query first_id list_ids
  find_file_in name none = pure none
  find_file_in name (some parent_id) = do
    let query = file_query name parent_id
    ids ← list_ids service query
    pure (first_id ids)

  unfoldable pub find_file_by_rel_path : String → Client (Option String)
  unfolding parent_and_name find_folder_path find_file_in
  find_file_by_rel_path path = do
    let (parent_rel, name) = parent_and_name path
    parent_id ← find_folder_path parent_rel
    find_file_in name parent_id

  unfoldable pub ensure_tombstones_folder : Client String
  unfolding ensure_folder_path find_folder or_create
  ensure_tombstones_folder s = elim s.caches.tombstones_folder_id [
    | some id ↦ (s, returned id)
    | none ↦
        (do
          sync_folder_id ← ensure_folder_path ".sync"
          found ← find_folder "tombstones" sync_folder_id
          id ← or_create "tombstones" sync_folder_id found
          modify (λ s'. record s' { caches = record s'.caches { tombstones_folder_id = some id } })
          pure id)
          s
  ]
