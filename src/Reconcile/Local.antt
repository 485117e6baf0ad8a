-- ===== src/Reconcile/Local.antt =====
-- `Reconciler._detect_local_changes`.
use obsidian_sync.Base.{
  String, ◌≡◌, Option, none, some, [], Dict, lookup, keys, minus, meet, collect, lookup-collect,
  contains-minus, contains-keys, contains-meet, if◌then◌else◌, arith,
}
use obsidian_sync.State.{FileEntry, is_modified}

pub data ChangeKind : Type 0 where
  new deleted modified : ChangeKind

pub record LocalChange : Type 0 where
  pub kind : ChangeKind
  pub entry : FileEntry

module _ (old_files new_files : Dict FileEntry) where
  -- a path of the new scan only
  new_change : String → Option LocalChange
  new_change p = elim (lookup p new_files) [
    | none ↦ none
    | some e ↦ some (record { kind = new; entry = e })
  ]

  -- a path of the old state only; a tombstone is no change
  deleted_change : String → Option LocalChange
  deleted_change p = elim (lookup p old_files) [
    | none ↦ none
    | some e ↦ if e.deleted then none else some (record { kind = deleted; entry = e })
  ]

  -- a path of both
  modified_change : String → Option LocalChange
  modified_change p = elim (lookup p old_files) [
    | none ↦ none
    | some o ↦ elim (lookup p new_files) [
      | none ↦ none
      | some n ↦ if is_modified o n then some (record { kind = modified; entry = n }) else none
    ]
  ]

  -- the three loops, each over its set of paths
  unfoldable pub detect_local_changes : Dict LocalChange
  unfolding new_change deleted_change modified_change
  detect_local_changes =
      let old_keys = keys old_files in
      let new_keys = keys new_files in
      let added = collect new_change (minus new_keys old_keys) [] in
      let removed = collect deleted_change (minus old_keys new_keys) added in
      collect modified_change (meet old_keys new_keys) removed

-- What a path's entries in the old state and in the new scan make of it.
abbrev pub change_of : Option FileEntry → Option FileEntry → Option LocalChange
change_of none none = none
change_of none (some n) = some (record { kind = new; entry = n })
change_of (some o) none = if o.deleted then none else some (record { kind = deleted; entry = o })
change_of (some o) (some n) =
    if is_modified o n then some (record { kind = modified; entry = n }) else none

-- The change that is found at a path is decided by the path's old and new entries alone: new and
-- deleted paths, tombstones passed over, and paths whose time or size differs.
pub lookup-detect_local_changes :
    (old_files new_files : Dict FileEntry) (p : String)
    → lookup p (detect_local_changes old_files new_files)
      ≡ change_of (lookup p old_files) (lookup p new_files)
unfolding detect_local_changes lookup
lookup-detect_local_changes old_files new_files p =
    simp (lookup-collect, contains-minus, contains-keys, contains-meet, contains-keys)
      (ground arith)
