-- ===== src/Engine/Undelete.antt =====
-- A file that the engine deletes can be restored.
use obsidian_sync.Base.{ℕ, String, true, false, ◌≡◌, refl, Option, none, some, lookup}
use obsidian_sync.Vault.{LocalFile, Vault}
use obsidian_sync.Trash.{Trash, MoveFault, no_fault, move, restore}
use obsidian_sync.Trash.Restore.{Undoes, restore-move}
use obsidian_sync.Engine.{Engine, done}
use obsidian_sync.Engine.Convert.{state_md5}
use obsidian_sync.Engine.Site.{Site, mark_local_written, record_entry}
use obsidian_sync.Engine.Upload.{drive_id_of}
use obsidian_sync.Engine.Published.{recorded_entry}
use obsidian_sync.State.{FileEntry}
use obsidian_sync.Engine.Deletion.{deleted_entry, do_delete_local, move_to_trash, mark_deleted}

-- Restoring what the deletion put into the trash gives back the vault and the trash.
abbrev pub CanUndo : String → String → Engine → Engine → Type 0
CanUndo id path before after =
    (v : Vault) × (t : Trash) × (restore id path after.vault after.trash ≡ some (v, t))
    × Undoes id path before.vault before.trash v t

-- the entry of the path is that of a deleted file
abbrev pub IsMarkedDeleted : String → Engine → Type 0
IsMarkedDeleted path e =
    (entry : FileEntry) × (lookup path e.state.files ≡ some entry) × (entry.deleted ≡ true)

-- the engine after the trash took the file
abbrev trashed : Site → String → Engine → Engine
trashed site path e =
    let m =
      move no_fault (site.new_trash_id e.trash) (site.wall e) path (state_md5 path e.state) e.vault
        e.trash in
    record e { vault = m.vault; trash = m.trash }

module _ (site : Site) (path : String) (f : LocalFile) (fault_of : String → MoveFault)
    (h : site.trash_fault ≡ some fault_of) (intact : fault_of path ≡ no_fault) where
  not_raised :
      (id : String) (now : ℕ) (md5 : Option String) (vault : Vault) (trash : Trash)
      → lookup path vault ≡ some f
      → (move no_fault id now path md5 vault trash).raised ≡ false
  unfolding move
  not_raised id now md5 vault trash there = rw (move, there) refl

  moved_to_trash :
      (e : Engine)
      → lookup path e.vault ≡ some f
      → move_to_trash site path e ≡ (trashed site path e, true)
  unfolding move_to_trash
  moved_to_trash e there =
      rw
        (
          move_to_trash,
          h,
          intact,
          not_raised (site.new_trash_id e.trash) (site.wall e) (state_md5 path e.state) e.vault
              e.trash there,
        )
        refl

  deleted :
      (e : Engine)
      → lookup path e.vault ≡ some f
      → do_delete_local site path e
        ≡ (mark_deleted site path (trashed site path (mark_local_written site path e)), done)
  unfolding mark_local_written do_delete_local mark_deleted
  deleted e there =
      rw (do_delete_local, there, moved_to_trash (mark_local_written site path e) there) refl

  -- If the file is in the vault and the trash takes it under a new id, then after a local deletion the state has the path
  -- marked as deleted, and restoring that id gives the vault and the trash of before.
  pub do_delete_local-CanUndo :
      (e : Engine)
      → lookup path e.vault ≡ some f
      → lookup (site.new_trash_id e.trash) e.trash.bodies ≡ none
      → lookup (site.new_trash_id e.trash) e.trash.metas ≡ none
      → CanUndo (site.new_trash_id e.trash) path e (do_delete_local site path e).0
        × IsMarkedDeleted path (do_delete_local site path e).0
  unfolding mark_deleted record_entry mark_local_written deleted_entry
  do_delete_local-CanUndo e there new_body new_meta =
      let marked = trashed site path (mark_local_written site path e) in
      let existing = lookup path e.state.files in
      let entry_after = deleted_entry site (drive_id_of existing) existing marked in
      rw (deleted e there) (
        restore-move (site.new_trash_id e.trash) (site.wall (mark_local_written site path e)) path
            (state_md5 path e.state) e.vault e.trash f there new_body new_meta,
        (entry_after, recorded_entry path entry_after marked, refl),
      )
