-- ===== src/Reconcile/Paths.antt =====
-- The actions of a reconciliation are about paths that are not ignored.
use obsidian_sync.Base.{
  String, true, false, ◌≡◌, refl, Option, none, some, List, [], ◌∷◌, Dict, lookup, if◌then◌else◌,
  Bool-cases, inl, inr,
}
use obsidian_sync.Drive.{Change}
use obsidian_sync.State.{FileEntry, SyncState}
use obsidian_sync.Reconcile.{
  Action, no_op, upload, download, delete_remote, delete_local, update_vector_only,
  absorb_remote_tombstone, decide,
}
use obsidian_sync.Reconcile.Actions.{
  SyncAction, upload_file, download_file, delete_remote_file, delete_local_file, rename_remote_file,
  conflict_files, action_to_dict,
}
use obsidian_sync.Reconcile.Local.{LocalChange}
use obsidian_sync.Reconcile.Remote.{RemoteInfo}
use obsidian_sync.Reconcile.Incremental.{
  World, apply_decision, decide_incremental, decide_paths, run,
}

-- the path of an action dict
abbrev pub action_path : SyncAction → Option String
action_path (upload_file path _) = some path
action_path (download_file _ path _) = some path
action_path (delete_remote_file _ path _) = path
action_path (delete_local_file path _) = some path
action_path (rename_remote_file old new) = some old
action_path (conflict_files path _ _ _ _) = some path

-- every action of the list is about a path with the property
abbrev pub AllPaths : (String → Type 0) → List SyncAction → Type 0
AllPaths P [] = Unit
AllPaths P (a ∷ rest) = ((path : String) × (action_path a ≡ some path) × P path) × AllPaths P rest

abbrev About : String → Option SyncAction → Type 0
About path none = Unit
About path (some a) = action_path a ≡ some path

pub action_to_dict-About :
    (a : Action) (path : String) (local remote : Option FileEntry) (s : SyncState)
    → About path (action_to_dict a path local remote s).0
unfolding action_to_dict
action_to_dict-About (no_op reason) path local remote s = tt
action_to_dict-About (upload none) path local remote s = refl
action_to_dict-About (upload (some c)) path local remote s = refl
action_to_dict-About (download id none) path local remote s = refl
action_to_dict-About (download id (some c)) path local remote s = refl
action_to_dict-About (delete_remote id) path local remote s = refl
action_to_dict-About delete_local path local remote s = refl
action_to_dict-About (update_vector_only none) path none remote s = tt
action_to_dict-About (update_vector_only none) path (some local) remote s = tt
action_to_dict-About (update_vector_only (some m)) path none remote s = tt
action_to_dict-About (update_vector_only (some m)) path (some local) remote s = tt
action_to_dict-About (absorb_remote_tombstone none) path local remote s = tt
action_to_dict-About (absorb_remote_tombstone (some r)) path local remote s = tt

apply_decision-About :
    (w : World) (path : String) (local remote : Option FileEntry) (s : SyncState)
    → About path (apply_decision w path local remote s).0
unfolding apply_decision
apply_decision-About w path none none s = tt
apply_decision-About w path none (some r) s =
    action_to_dict-About (decide none (some r)) path none (some r) s
apply_decision-About w path (some l) none s =
    action_to_dict-About (decide (some l) none) path (some l) none s
apply_decision-About w path (some l) (some r) s =
    action_to_dict-About (decide (some l) (some r)) path (some l) (some r) s

module _ (w : World) where
  abbrev Kept : String → Type 0
  Kept path = w.should_ignore path ≡ false

  AllPaths-cons :
      (path : String) (o : Option SyncAction) (rest : List SyncAction)
      → (w.should_ignore path ≡ false → About path o)
      → (w.should_ignore path ≡ true → o ≡ none)
      → AllPaths Kept rest
      → AllPaths Kept (elim o as (λ _. List SyncAction) [ none ↦ rest | some a ↦ a ∷ rest ])
  AllPaths-cons path none rest h k r = r
  AllPaths-cons path (some a) rest h k r = elim (Bool-cases (w.should_ignore path)) [
    | inl skip ↦ cc (k skip)
    | inr kept ↦ ((path, h kept, kept), r)
  ]

  decide_paths-AllPaths :
      (changes : Dict LocalChange) (infos : Dict RemoteInfo) (old_files new_files : Dict FileEntry)
      (paths : List String) (s : SyncState)
      → AllPaths Kept (decide_paths w changes infos old_files new_files paths s).0
  unfolding decide_paths decide_incremental
  decide_paths-AllPaths changes infos old_files new_files [] s = tt
  decide_paths-AllPaths changes infos old_files new_files (path ∷ paths) s =
      let step =
        if w.should_ignore path
        then (none, s)
        else decide_incremental w path (lookup path changes) (lookup path infos) old_files new_files
            s in
      AllPaths-cons path step.0 (decide_paths w changes infos old_files new_files paths step.1).0
        (λ kept. rw kept (apply_decision-About w path _ _ s)) (λ skip. rw skip)
        (decide_paths-AllPaths changes infos old_files new_files paths step.1)

  -- No action of `run` is about an ignored path, whatever the scan and the Changes API report.
  pub run-AllPaths :
      (scanned : Dict FileEntry) (answer : List Change × Option String) (s : SyncState)
      → AllPaths Kept (run w scanned answer s).0
  unfolding run
  run-AllPaths scanned answer s = decide_paths-AllPaths _ _ s.files scanned _ s
