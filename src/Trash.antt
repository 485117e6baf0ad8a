-- ===== src/Trash.antt =====
-- src/trash.py: the local trash. Times are in seconds.
pub mod Retention
pub mod Restore
mod Tests
use obsidian_sync.Base.{
  ℕ, ◌+◌, ◌*◌, String, Bool, true, false, Option, none, some, List, [], ◌∷◌, ℤ, Dict, lookup,
  insert, remove, keys, length, ltb, if◌then◌else◌, some_or, sort_texts,
}
use obsidian_sync.Vault.{LocalFile, Vault}

-- the object of a metadata file, whose keys may be missing
pub record TrashMeta : Type 0 where
  pub original_path : Option String
  pub mtime : Option ℕ
  pub size : Option ℤ
  pub deleted_at : Option ℕ
  pub md5 : Option String

-- The trash directory: the bodies by their id, and the metadata files, `none` for one that is no JSON
-- or cannot be read.
pub record Trash : Type 0 where
  pub bodies : Dict LocalFile
  pub metas : Dict (Option TrashMeta)

-- how the file operations of `move` go: the file may not be moved, or its metadata not be written
pub data MoveFault : Type 0 where
  no_fault move_fails meta_fails : MoveFault

-- the vault, the trash, and whether `move` raises
pub record Moved : Type 0 where
  pub vault : Vault
  pub trash : Trash
  pub raised : Bool

unfoldable pub trash_meta : ℕ → String → LocalFile → Option String → TrashMeta
trash_meta now path f md5 = record {
  original_path = some path;
  mtime = some f.mtime;
  size = some f.size;
  deleted_at = some now;
  md5 = md5;
}

-- `move`; the id is the fresh UUID
unfoldable pub move : MoveFault → String → ℕ → String → Option String → Vault → Trash → Moved
unfolding trash_meta
move fault id now path md5 vault trash =
    let unmoved : Moved = record { vault = vault; trash = trash; raised = true } in
    elim (lookup path vault) [
      | none ↦ unmoved
      | some f ↦
          let taken = record trash { bodies = insert id f trash.bodies } in
          elim fault [
            | move_fails ↦ unmoved
            | meta_fails ↦ record { vault = remove path vault; trash = taken; raised = true }
            | no_fault ↦ record {
              vault = remove path vault;
              trash = record taken {
                metas = insert id (some (trash_meta now path f md5)) trash.metas;
              };
              raised = false;
            }
          ]
    ]

-- `deleted_at < cutoff`
unfoldable pub is_expired : ℕ → ℕ → TrashMeta → Bool
is_expired now retention_days meta = ltb (some_or meta.deleted_at 0 + retention_days * 86400) now

-- whether `gc` removes an item
unfoldable pub is_collected : ℕ → ℕ → Option TrashMeta → Bool
unfolding is_expired
is_collected now retention_days none = false
is_collected now retention_days (some meta) = is_expired now retention_days meta

unfoldable pub drop_item : String → Trash → Trash
drop_item id trash = record { bodies = remove id trash.bodies; metas = remove id trash.metas }

-- which `unlink` of a body or of a metadata file raises an `OSError`
pub record UnlinkFaults : Type 0 where
  pub body_stays : String → Bool
  pub meta_stays : String → Bool

-- an expired item: its body is removed if it is there, and then its metadata; `false` if one raises
unfoldable pub drop_expired : UnlinkFaults → String → Trash → Trash × Bool
drop_expired f id trash =
    let stuck : Bool = elim (lookup id trash.bodies) [
      | none ↦ false
      | some body ↦ f.body_stays id
    ] in
    let taken = record trash { bodies = remove id trash.bodies } in
    if stuck
    then (trash, false)
    else if f.meta_stays id
    then (taken, false)
    else (record taken { metas = remove id trash.metas }, true)

-- the body of the loop
unfoldable pub gc_item : UnlinkFaults → ℕ → ℕ → String → Option TrashMeta → Trash → Trash × Bool
unfolding is_collected drop_expired
gc_item f now retention_days id meta trash =
    if is_collected now retention_days meta then drop_expired f id trash else (trash, false)

-- the loop over the metadata files
unfoldable pub gc_items : UnlinkFaults → ℕ → ℕ → Dict (Option TrashMeta) → Trash → Trash × ℕ
unfolding gc_item
gc_items f now retention_days [] trash = (trash, 0)
gc_items f now retention_days ((id, meta) ∷ metas) trash =
    let (next, done) = gc_item f now retention_days id meta trash in
    let (last, removed) = gc_items f now retention_days metas next in
    (last, if done then removed + 1 else removed)

unfoldable pub gc : UnlinkFaults → ℕ → ℕ → Trash → Trash × ℕ
unfolding gc_items
gc f now retention_days trash = gc_items f now retention_days trash.metas trash

pub record TrashEntry : Type 0 where
  pub uuid : String
  pub original_path : String
  pub mtime : ℕ
  pub size : ℤ
  pub deleted_at : ℕ
  pub md5 : Option String

-- an entry of the list; without one of the four keys it is left out
unfoldable pub trash_entry : String → TrashMeta → Option TrashEntry
trash_entry id meta = elim meta.original_path [
  | none ↦ none
  | some path ↦ elim meta.mtime [
    | none ↦ none
    | some mtime ↦ elim meta.size [
      | none ↦ none
      | some size ↦ elim meta.deleted_at [
        | none ↦ none
        | some deleted_at ↦ some (record {
          uuid = id;
          original_path = path;
          mtime = mtime;
          size = size;
          deleted_at = deleted_at;
          md5 = meta.md5;
        })
      ]
    ]
  ]
]

-- the entries of these ids, in their order
unfoldable pub entries_of : List String → Dict (Option TrashMeta) → List TrashEntry
unfolding trash_entry
entries_of [] metas = []
entries_of (id ∷ ids) metas =
    let rest = entries_of ids metas in
    elim (lookup id metas) [
      | some (some meta) ↦ elim (trash_entry id meta) [ none ↦ rest | some e ↦ e ∷ rest ]
      | _ ↦ rest
    ]

-- `list_entries`, in the order of the file names
unfoldable pub list_entries : Trash → List TrashEntry
unfolding entries_of
list_entries trash = entries_of (sort_texts (keys trash.metas)) trash.metas

-- `restore`; `none` is the `FileNotFoundError`
unfoldable pub restore : String → String → Vault → Trash → Option (Vault × Trash)
unfolding drop_item
restore id target vault trash = elim (lookup id trash.bodies) [
  | none ↦ none
  | some f ↦ some (insert target f vault, drop_item id trash)
]
