-- ===== src/Reconcile/Remote.antt =====
-- `Reconciler._classify_remote` and `_remote_info_to_entry`.
use obsidian_sync.Base.{
  ℕ, String, Bool, true, Option, none, some, List, [], ◌∷◌, ℤ, pos, Dict, lookup, insert,
  if◌then◌else◌, ◌==◌, some_or, truthy_text,
}
use obsidian_sync.Vector.{VersionVector, empty, update}
use obsidian_sync.Codec.{decode}
use obsidian_sync.Drive.{FileMeta, Change}
use obsidian_sync.State.{FileEntry, new_entry}

abbrev pub remote_pseudo_device : String
remote_pseudo_device = "_remote_"

pub data RemoteKind : Type 0 where
  removed modified new : RemoteKind

pub record RemoteInfo : Type 0 where
  pub kind : RemoteKind
  pub file_id : String
  pub file : Option FileMeta

-- the first path whose entry has the drive id
unfoldable pub path_by_drive_id : Dict FileEntry → String → Option String
path_by_drive_id [] file_id = none
path_by_drive_id ((path, entry) ∷ rest) file_id =
    let later = path_by_drive_id rest file_id in
    elim entry.drive_id [ none ↦ later | some id ↦ if id == file_id then some path else later ]

-- `a or b` on optional texts
unfoldable pub or_option : Option String → Option String → Option String
or_option none b = b
or_option (some a) b = if truthy_text a then some a else b

-- `xs or ys` on optional lists, `[]` at last
unfoldable pub or_list : Option (List String) → Option (List String) → List String
or_list (some (x ∷ xs)) other = x ∷ xs
or_list _ other = some_or other []

module _ (should_ignore : String → Bool)
    (resolve_vault_rel_path : List String → String → Option String) (files : Dict FileEntry) where
  -- a file that the state does not know: its path is resolved through its parents
  classify_new : Dict RemoteInfo → Change → FileMeta → Dict RemoteInfo
  unfolding or_list
  classify_new kinds change meta = elim meta.name [
    | none ↦ kinds
    | some name ↦
        if truthy_text name
        then elim (resolve_vault_rel_path (or_list change.parents meta.api_parents) name) [
          | none ↦ kinds
          | some resolved ↦
              if should_ignore resolved
              then kinds
              else insert resolved
                  (record { kind = new; file_id = change.file_id; file = some meta }) kinds
        ]
        else kinds
  ]

  -- the path that the first `should_ignore` test sees: `known_path or file_meta.get("name", "")`
  seen_path : Option String → FileMeta → String
  unfolding or_option
  seen_path known meta = some_or (or_option known meta.name) ""

  classify_present : Dict RemoteInfo → Change → FileMeta → Dict RemoteInfo
  unfolding classify_new seen_path path_by_drive_id
  classify_present kinds change meta =
      let known = path_by_drive_id files change.file_id in
      if should_ignore (seen_path known meta) then kinds else elim known [
        | none ↦ classify_new kinds change meta
        | some path ↦
            insert path (record { kind = modified; file_id = change.file_id; file = some meta })
              kinds
      ]

  -- the body of the loop over the changes
  unfoldable pub classify_change : Dict RemoteInfo → Change → Dict RemoteInfo
  unfolding classify_present
  classify_change kinds change =
      if change.removed
      then elim (path_by_drive_id files change.file_id) [
        | none ↦ kinds
        | some path ↦
            insert path (record { kind = removed; file_id = change.file_id; file = none }) kinds
      ]
      else elim change.file [ none ↦ kinds | some meta ↦ classify_present kinds change meta ]

  unfoldable pub classify_changes : Dict RemoteInfo → List Change → Dict RemoteInfo
  unfolding classify_change
  classify_changes kinds [] = kinds
  classify_changes kinds (change ∷ rest) = classify_changes (classify_change kinds change) rest

-- `_parse_rfc3339`; the library's date parser is a parameter, `none` being its `ValueError`.
unfoldable pub parse_rfc3339 : (String → Option ℕ) → Option String → ℕ
parse_rfc3339 parse_date none = 0
parse_rfc3339 parse_date (some value) =
    if truthy_text value then some_or (parse_date value) 0 else 0

-- a file that is there; without its dict there is no entry
unfoldable pub present_entry : (String → Option ℕ) → String → Option FileMeta → Option FileEntry
unfolding parse_rfc3339 or_option new_entry
present_entry parse_date file_id none = none
present_entry parse_date file_id (some meta) =
    let (remote_vv, deleted, remote_md5) = decode meta.api_app_properties in
    let mtime = parse_rfc3339 parse_date meta.api_modified_time in
    some (record (new_entry mtime (some_or meta.api_size (pos 0))) {
      drive_id = some file_id;
      version = remote_vv;
      deleted = deleted;
      md5 = or_option meta.api_md5_checksum remote_md5;
    })

-- `now_ms` is the clock's reading for a removed file.
unfoldable pub remote_info_to_entry :
    (String → Option ℕ) → ℤ → Dict FileEntry → RemoteInfo → String → Option FileEntry
unfolding present_entry new_entry
remote_info_to_entry parse_date now_ms files info path = elim info.kind [
  | removed ↦
      let old : VersionVector = elim (lookup path files) [ none ↦ empty | some e ↦ e.version ] in
      some (record (new_entry 0 (pos 0)) {
        drive_id = some info.file_id;
        version = update old remote_pseudo_device now_ms;
        deleted = true;
      })
  | _ ↦ present_entry parse_date info.file_id info.file
]
