-- ===== src/State.antt =====
-- src/state.py: the entries of the state file and the in-memory state. Times are counts of a fixed
-- fraction of a second, where the source has floats; they are only stored and compared.
pub mod File
pub mod Scan
mod Tests
use obsidian_sync.Base.{
  ℕ, String, Bool, true, false, not, ◌||◌, Option, none, some, List, [], ◌∷◌, ℤ, Dict, lookup,
  insert, remove, keys, eqb, if◌then◌else◌, eqb_ℤ, sort_texts, minus, meet,
}
use obsidian_sync.Vector.{VersionVector, empty}

pub record FileEntry : Type 0 where
  pub mtime : ℕ
  pub size : ℤ
  pub drive_id : Option String
  pub version : VersionVector
  pub deleted : Bool
  pub deleted_at : Option ℕ
  pub md5 : Option String

-- `FileEntry(mtime=…, size=…)` with the defaults of the other fields
unfoldable pub new_entry : ℕ → ℤ → FileEntry
new_entry mtime size = record {
  mtime = mtime;
  size = size;
  drive_id = none;
  version = empty;
  deleted = false;
  deleted_at = none;
  md5 = none;
}

-- `save_timer` says whether a debounced save is pending.
pub record SyncState : Type 0 where
  pub device_id : String
  pub page_token : Option String
  pub last_synced_at : Option ℕ
  pub files : Dict FileEntry
  pub known_device_ids : List String
  pub dirty : Bool
  pub save_timer : Bool

-- `save(immediate=False)`: the pending timer is replaced by a new one
unfoldable pub save_later : SyncState → SyncState
save_later s = record s { dirty = true; save_timer = true }

unfoldable pub update_file : String → FileEntry → SyncState → SyncState
unfolding save_later
update_file rel_path entry s = save_later (record s { files = insert rel_path entry s.files })

unfoldable pub remove_file : String → SyncState → SyncState
unfolding save_later
remove_file rel_path s = save_later (record s { files = remove rel_path s.files })

-- whether `diff` and the reconciler call an entry modified
unfoldable pub is_modified : FileEntry → FileEntry → Bool
is_modified old new = not (eqb old.mtime new.mtime) || not (eqb_ℤ old.size new.size)

pub record DiffResult : Type 0 where
  pub added : List String
  pub modified : List String
  pub deleted : List String

-- whether the two dicts have different entries at a key of both
unfoldable pub differs_at : Dict FileEntry → Dict FileEntry → String → Bool
unfolding is_modified
differs_at old new k = elim (lookup k old) [
  | none ↦ false
  | some o ↦ elim (lookup k new) [ none ↦ false | some n ↦ is_modified o n ]
]

-- the keys that pass a test, in order
unfoldable pub select : (String → Bool) → List String → List String
select p [] = []
select p (k ∷ ks) = let rest = select p ks in if p k then k ∷ rest else rest

unfoldable pub diff : Dict FileEntry → Dict FileEntry → DiffResult
unfolding differs_at select
diff old new = record {
  added = sort_texts (minus (keys new) (keys old));
  modified = select (differs_at old new) (sort_texts (meet (keys old) (keys new)));
  deleted = sort_texts (minus (keys old) (keys new));
}
