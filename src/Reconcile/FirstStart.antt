-- ===== src/Reconcile/FirstStart.antt =====
-- What `run_without_state` guarantees for one path.
use text.Mathlib.TextPositions.{eq_refl}
use obsidian_sync.Base.{
  String, false, ◌≡◌, refl, ◌∙◌, Option, none, some, Dict, lookup, insert, lookup-insert, if_intro,
}
use obsidian_sync.Drive.{ListedFile}
use obsidian_sync.Vector.{
  VectorOrdering, equal, greater, lesser, concurrent_greater, concurrent_lesser, compare, non_empty,
}
use obsidian_sync.Codec.{decode}
use obsidian_sync.Vector.Order.{◌≤ⱽ◌, compare_iff}
use obsidian_sync.State.{FileEntry, SyncState}
use obsidian_sync.Reconcile.{
  Action, no_op, upload, download, delete_remote, delete_local, update_vector_only,
  absorb_remote_tombstone, same_md5,
}
use obsidian_sync.Reconcile.Decide.{Justified, decide-Justified}
use obsidian_sync.Reconcile.Actions.{
  SyncAction, upload_file, init_tombstone_wins, init_local_only, delete_local_file, action_to_dict,
}
use obsidian_sync.Reconcile.Remote.{or_option}
use obsidian_sync.Reconcile.Outcomes.{IsConflict}
use obsidian_sync.Reconcile.Incremental.{World}
use obsidian_sync.Reconcile.Initial.{
  remote_vector, decide_local_only, decide_both, decide_without_state,
}

-- the state's entry at the path has the drive id
abbrev pub Registers : String → String → Dict FileEntry → Type 0
Registers path id files = (e : FileEntry) × (lookup path files ≡ some e) × (e.drive_id ≡ some id)

insert-Registers :
    (path id : String) (e : FileEntry) (files : Dict FileEntry)
    → e.drive_id ≡ some id
    → Registers path id (insert path e files)
insert-Registers path id e files h = (e, lookup-insert path path e files ∙ rw (eq_refl path), h)

decide_both-Registers :
    (w : World) (path : String) (local : FileEntry) (remote : ListedFile) (s : SyncState)
    → Registers path remote.id (decide_both w path local remote s).1.files
unfolding decide_both
decide_both-Registers w path local remote s =
    if_intro P (same_md5 md5 drive_md5) _ _ (λ _. insert-Registers path remote.id _ _ refl)
      (λ _.
        if_intro P (non_empty local.version) _ _ (λ _. insert-Registers path remote.id _ _ refl)
          (λ _. insert-Registers path remote.id _ _ refl))
  where
    P : Option SyncAction × SyncState → Type 0
    P x = Registers path remote.id x.1.files

    md5 : Option String
    md5 = w.compute_md5 path

    drive_md5 : Option String
    drive_md5 = or_option remote.meta.api_md5_checksum (decode remote.meta.api_app_properties).2

-- Every path of the Drive's list is known by its drive id afterwards, whichever branch is taken, so
-- that a later upload replaces the file and makes no second one.
pub decide_without_state-Registers :
    (w : World) (path : String) (local : Option FileEntry) (remote : ListedFile)
    (tombstone : Option ListedFile) (s : SyncState)
    → Registers path remote.id (decide_without_state w path local (some remote) tombstone s).1.files
unfolding decide_without_state
decide_without_state-Registers w path none remote tombstone s =
    insert-Registers path remote.id _ s.files refl
decide_without_state-Registers w path (some local) remote tombstone s =
    decide_both-Registers w path local remote s

-- whether an action deletes a local file
abbrev pub IsLocalDelete : Option SyncAction → Type 0
IsLocalDelete (some (delete_local_file path reason)) = Unit
IsLocalDelete _ = ⊥

live_remote_keeps :
    (a : Action) (path : String) (l r : FileEntry) (s : SyncState)
    → Justified a l r
    → r.deleted ≡ false
    → ¬ IsLocalDelete (action_to_dict a path (some l) (some r) s).0
unfolding action_to_dict
live_remote_keeps (no_op reason) path l r s j live d = d
live_remote_keeps (upload none) path l r s j live d = d
live_remote_keeps (upload (some c)) path l r s j live d = d
live_remote_keeps (download id none) path l r s j live d = d
live_remote_keeps (download id (some c)) path l r s j live d = d
live_remote_keeps (delete_remote id) path l r s j live d = d
live_remote_keeps delete_local path l r s j live d = cc (j.1, live)
live_remote_keeps (update_vector_only none) path l r s j live d = d
live_remote_keeps (update_vector_only (some m)) path l r s j live d = d
live_remote_keeps (absorb_remote_tombstone e) path l r s j live d = j

decide_both-keeps :
    (w : World) (path : String) (local : FileEntry) (remote : ListedFile) (s : SyncState)
    → ¬ IsLocalDelete (decide_both w path local remote s).0
unfolding decide_both
decide_both-keeps w path local remote s =
    if_intro P (same_md5 md5 drive_md5) _ _ (λ _ d. d)
      (λ _.
        if_intro P (non_empty local.version) _ _
          (λ _. live_remote_keeps _ path _ _ s (decide-Justified _ _) refl) (λ _ d. d))
  where
    P : Option SyncAction × SyncState → Type 0
    P x = ¬ IsLocalDelete x.0

    md5 : Option String
    md5 = w.compute_md5 path

    drive_md5 : Option String
    drive_md5 = or_option remote.meta.api_md5_checksum (decode remote.meta.api_app_properties).2

-- the vector of a tombstone has every event of the local file, and more
abbrev pub Outlives : FileEntry → ListedFile → Type 0
Outlives local tombstone =
    (local.version ≤ⱽ remote_vector tombstone) × (¬ (remote_vector tombstone ≤ⱽ local.version))

module _ (path : String) (local : FileEntry) (t : ListedFile) (s : SyncState) where
  abbrev by_order : VectorOrdering → Option SyncAction × SyncState
  by_order o = elim o [
    | lesser ↦ (some (delete_local_file path init_tombstone_wins), s)
    | _ ↦ (some (upload_file path init_local_only), s)
  ]

  by_order-Outlives :
      (o : VectorOrdering)
      → compare local.version (remote_vector t) ≡ o
      → IsLocalDelete (by_order o).0
      → Outlives local t
  by_order-Outlives lesser e d = (compare_iff local.version (remote_vector t) lesser).0 e
  by_order-Outlives equal e d = absurd d
  by_order-Outlives greater e d = absurd d
  by_order-Outlives concurrent_greater e d = absurd d
  by_order-Outlives concurrent_lesser e d = absurd d

  decide_local_only-Outlives :
      (w : World) → IsLocalDelete (decide_local_only w path local (some t) s).0 → Outlives local t
  unfolding decide_local_only
  decide_local_only-Outlives w =
      if_intro (λ (x : Option SyncAction × SyncState). IsLocalDelete x.0 → Outlives local t)
        (non_empty (remote_vector t)) _ _
        (λ _. by_order-Outlives (compare local.version (remote_vector t)) refl) (λ _ d. absurd d)

-- What the deletion of a local file rests on: the Drive lists no such file, and it lists a tombstone.
abbrev pub Tombstoned : Option FileEntry → Option ListedFile → Option ListedFile → Type 0
Tombstoned (some local) none (some tombstone) = Outlives local tombstone
Tombstoned _ _ _ = ⊥

-- A full reconciliation deletes a local file only where the Drive has no live file at the path and
-- a tombstone whose vector has every event of the local file, and more.
pub local_delete-Tombstoned :
    (w : World) (path : String) (local : Option FileEntry) (remote tombstone : Option ListedFile)
    (s : SyncState)
    → IsLocalDelete (decide_without_state w path local remote tombstone s).0
    → Tombstoned local remote tombstone
unfolding decide_without_state
local_delete-Tombstoned w path (some l) none (some t) s d =
    decide_local_only-Outlives path l t s w d
local_delete-Tombstoned w path none none none s d = d
local_delete-Tombstoned w path none none (some t) s d = d
local_delete-Tombstoned w path none (some r) none s d = d
local_delete-Tombstoned w path none (some r) (some t) s d = d
local_delete-Tombstoned w path (some l) none none s d = d
local_delete-Tombstoned w path (some l) (some r) none s d =
    absurd (decide_both-keeps w path l r s d)
local_delete-Tombstoned w path (some l) (some r) (some t) s d =
    absurd (decide_both-keeps w path l r s d)

-- The state was lost, so the local file has no counters, and the contents differ: the file becomes a
-- conflict, and neither side is overwritten without a copy.
pub state_lost-IsConflict :
    (w : World) (path : String) (local : FileEntry) (remote : ListedFile)
    (tombstone : Option ListedFile) (s : SyncState)
    → non_empty local.version ≡ false
    → same_md5
        (w.compute_md5 path)
        (or_option remote.meta.api_md5_checksum (decode remote.meta.api_app_properties).2)
      ≡ false
    → IsConflict (decide_without_state w path (some local) (some remote) tombstone s).0
unfolding decide_without_state decide_both
state_lost-IsConflict w path local remote tombstone s lost differ = rw (differ, lost) tt
