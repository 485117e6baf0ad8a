-- ===== src/Drive/Client/Folder/ReadOnly.antt =====
-- src/drive_client.py: `find_file_by_rel_path` creates and changes nothing in Drive.
use Prim.Native.String.{◌++◌ as ◌+text◌}
use obsidian_sync.Base.{
  String, Bool, true, false, refl, inl, inr, Option, none, some, List, [], ◌∷◌, Bool-cases,
  Option-cases, segments, strip_slashes,
}
use obsidian_sync.Drive.Client.{
  Service, Session, Client, Call, list_files, create_file, update_file, get_file, get_media,
  get_start_token, ◌>>◌, pure, modify, list_ids,
}
use obsidian_sync.Drive.Client.Sends.{
  Sends, no_more, Sends-trans, Sends-and_then, request_with_retry-Sends,
}
use obsidian_sync.Drive.Client.Folder.{
  cached, is_root, remember, folder_query, file_query, first_id, find_folder, find_parts,
  find_folder_path, find_file_in, parent_and_name, find_file_by_rel_path,
}

-- a listing
abbrev pub is_listing : Call → Bool
is_listing (list_files query) = true
is_listing (create_file body) = false
is_listing (update_file id body) = false
is_listing (get_file id) = false
is_listing (get_media id) = false
is_listing get_start_token = false

abbrev pub Lists : Session → Session → Type 0
Lists = Sends is_listing

module _ (service : Service) where
  find_folder-Lists :
      (name parent_id : String) (s : Session) → Lists s (find_folder service name parent_id s).0
  unfolding find_folder list_ids
  find_folder-Lists name parent_id s =
      let query = folder_query name parent_id in
      Sends-and_then is_listing s (list_ids service query s) (λ ids. pure (first_id ids))
        (request_with_retry-Sends is_listing none (list_files query)
          (λ sent. service.on_list sent query) s refl)
        (λ ids t. no_more t refl)

  found_next :
      (part parent_id longer : String) (parts : List String)
      → ((id : String) (s : Session) → Lists s (find_parts service parts id longer s).0)
      → (child : Option String) (s : Session)
      → Lists s
          ((elim child as (λ x. Client (Option String)) [
            | none ↦ pure none
            | some id ↦ modify (remember longer id) >> find_parts service parts id longer
          ])
            s).0
  unfolding remember
  found_next part parent_id longer parts later none s = no_more s refl
  found_next part parent_id longer parts later (some id) s =
      Sends-trans is_listing s (remember longer id s)
        (find_parts service parts id longer (remember longer id s)).0
        (no_more (remember longer id s) refl) (later id (remember longer id s))

  find_parts-Lists :
      (parts : List String) (parent_id built : String) (s : Session)
      → Lists s (find_parts service parts parent_id built s).0
  unfolding find_parts
  find_parts-Lists [] parent_id built s = no_more s refl
  find_parts-Lists (part ∷ parts) parent_id built s =
      let longer = strip_slashes (built +text ("/" +text part)) in
      Sends-and_then is_listing s (find_folder service part parent_id s) _
        (find_folder-Lists part parent_id s)
        (found_next part parent_id longer parts (λ id. find_parts-Lists parts id longer))

  find_folder_path-Lists :
      (path : String) (s : Session) → Lists s (find_folder_path service path s).0
  unfolding find_folder_path
  find_folder_path-Lists path s = elim (Bool-cases (is_root path)) [
    | inl at_root ↦ rw (find_folder_path, at_root) (no_more s refl)
    | inr inner ↦ elim (Option-cases (cached path s)) [
      | inr (id, there) ↦ rw (find_folder_path, inner, there) (no_more s refl)
      | inl absent ↦
          rw (find_folder_path, inner, absent) (find_parts-Lists (segments path) s.root "" s)
    ]
  ]

  find_file_in-Lists :
      (name : String) (parent_id : Option String) (s : Session)
      → Lists s (find_file_in service name parent_id s).0
  unfolding find_file_in list_ids
  find_file_in-Lists name none s = no_more s refl
  find_file_in-Lists name (some parent_id) s =
      let query = file_query name parent_id in
      Sends-and_then is_listing s (list_ids service query s) (λ ids. pure (first_id ids))
        (request_with_retry-Sends is_listing none (list_files query)
          (λ sent. service.on_list sent query) s refl)
        (λ ids t. no_more t refl)

  -- `find_file_by_rel_path` sends nothing but listings, however it ends: it creates no folder on the
  -- way, and changes nothing in Drive.
  pub find_file_by_rel_path-Lists :
      (path : String) (s : Session) → Lists s (find_file_by_rel_path service path s).0
  unfolding find_file_by_rel_path
  find_file_by_rel_path-Lists path s =
      let name = (parent_and_name path).1 in
      Sends-and_then is_listing s (find_folder_path service (parent_and_name path).0 s)
        (find_file_in service name) (find_folder_path-Lists (parent_and_name path).0 s)
        (λ parent_id t. find_file_in-Lists name parent_id t)
