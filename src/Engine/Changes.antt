-- ===== src/Engine/Changes.antt =====
-- What the actions for remote changes rest on.
use obsidian_sync.Base.{
  ℕ, String, Bool, true, false, ◌&&◌, ◌≡◌, refl, inl, inr, Option, none, some, List, [],
  Option-cases, if◌then◌else◌, if_intro, truthy_text, some_or,
}
use obsidian_sync.Drive.{FileMeta, Change}
use obsidian_sync.State.{SyncState}
use obsidian_sync.Reconcile.{same_md5}
use obsidian_sync.Reconcile.Incremental.{has_id}
use obsidian_sync.Reconcile.Remote.{path_by_drive_id, or_option}
use obsidian_sync.Reconcile.Actions.{
  SyncAction, download_file, delete_local_file, remote_modified, remote_new,
}
use obsidian_sync.Engine.{Engine, is_echo}
use obsidian_sync.Engine.Convert.{
  state_md5, known_file_action, new_file_action, present_action, change_action, change_to_action,
}

-- A download is of a path that is not ignored; a deletion is of the path that the state has for a
-- removed file; there is no other action.
abbrev pub Warranted : (String → Bool) → Change → SyncState → Option SyncAction → Type 0
Warranted should_ignore change s none = Unit
Warranted should_ignore change s (some (download_file id path reason)) =
    (change.removed ≡ false) × (id ≡ some change.file_id) × (should_ignore path ≡ false)
Warranted should_ignore change s (some (delete_local_file path reason)) =
    (change.removed ≡ true) × (path_by_drive_id s.files change.file_id ≡ some path)
Warranted should_ignore change s _ = ⊥

module _ (should_ignore : String → Bool)
    (resolve_vault_rel_path : List String → String → Option String) where
  known_file-Warranted :
      (change : Change) (path : String) (meta : FileMeta) (s : SyncState)
      → change.removed ≡ false
      → Warranted should_ignore change s
          (known_file_action should_ignore resolve_vault_rel_path change.file_id path meta s)
  unfolding known_file_action
  known_file-Warranted change path meta s there =
      if_intro (Warranted should_ignore change s) (should_ignore path) _ _ (λ _. tt)
        (λ kept.
          if_intro (Warranted should_ignore change s)
            (has_id (or_option meta.api_md5_checksum meta.md5)
              && same_md5 (state_md5 path s) (or_option meta.api_md5_checksum meta.md5))
            none (some (download_file (some change.file_id) path remote_modified)) (λ _. tt)
            (λ _. (there, refl, kept)))

  resolved-Warranted :
      (change : Change) (s : SyncState) (resolved : Option String)
      → change.removed ≡ false
      → Warranted should_ignore change s (elim resolved as (λ _. Option SyncAction) [
        | none ↦ none
        | some path ↦
            if should_ignore path
            then none
            else some (download_file (some change.file_id) path remote_new)
      ])
  resolved-Warranted change s none there = tt
  resolved-Warranted change s (some path) there =
      if_intro (Warranted should_ignore change s) (should_ignore path) none
        (some (download_file (some change.file_id) path remote_new)) (λ _. tt)
        (λ kept. (there, refl, kept))

  new_file-Warranted :
      (change : Change) (name : String) (s : SyncState)
      → change.removed ≡ false
      → Warranted should_ignore change s
          (new_file_action should_ignore resolve_vault_rel_path change.file_id name change.parents)
  unfolding new_file_action
  new_file-Warranted change name s there =
      resolved-Warranted change s (resolve_vault_rel_path (some_or change.parents []) name) there

  present-Warranted :
      (change : Change) (meta : FileMeta) (s : SyncState)
      → change.removed ≡ false
      → Warranted should_ignore change s
          (present_action should_ignore resolve_vault_rel_path change meta s)
  unfolding present_action
  present-Warranted change meta s there = elim (Option-cases meta.name) [
    | inl e ↦ rw e tt
    | inr (name, e) ↦ rw e (elim (Option-cases (path_by_drive_id s.files change.file_id)) [
      | inl f ↦ rw f (
          if_intro (Warranted should_ignore change s) (truthy_text name) _ _
            (λ _. new_file-Warranted change name s there) (λ _. tt))
      | inr (path, f) ↦ rw f (
          if_intro (Warranted should_ignore change s) (truthy_text name) _ _
            (λ _. known_file-Warranted change path meta s there) (λ _. tt))
    ])
  ]

  change_action-Warranted :
      (change : Change) (s : SyncState)
      → Warranted should_ignore change s
          (change_action should_ignore resolve_vault_rel_path change s)
  unfolding change_action
  change_action-Warranted change s =
      if_intro (Warranted should_ignore change s) change.removed _ _
        (λ gone. elim (Option-cases (path_by_drive_id s.files change.file_id)) [
          | inl f ↦ rw f tt
          | inr (path, f) ↦ rw f (gone, f)
        ])
        (λ there. elim (Option-cases change.file) [
          | inl e ↦ rw e tt
          | inr (meta, e) ↦ rw e (present-Warranted change meta s there)
        ])

  -- For a remote change there is at most one action: the download of the changed file to a path that
  -- is not ignored, if the file is there, or the deletion of the path that the state has for it, if
  -- it was removed.
  pub change_to_action-Warranted :
      (now : ℕ) (change : Change) (e : Engine)
      → Warranted should_ignore change e.state
          (change_to_action should_ignore resolve_vault_rel_path now change e).1
  unfolding change_to_action
  change_to_action-Warranted now change e =
      if_intro (Warranted should_ignore change e.state)
        (is_echo now change.file_id e.recent_drive_writes).1 _ _ (λ _. tt)
        (λ _. change_action-Warranted change e.state)
