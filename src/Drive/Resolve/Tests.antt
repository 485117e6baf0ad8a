-- ===== src/Drive/Resolve/Tests.antt =====
-- A new file in a folder that the caches do not know.
use obsidian_sync.Base.{
  String, ◌==◌, subst, none, [], ◌∷◌, lookup, if◌then◌else◌, eq_iff, Bool-cases, inl, inr,
}
use obsidian_sync.Drive.Folders.{Caches}
use obsidian_sync.Drive.Resolve.{FolderReply, folder_meta, resolve_vault_rel_path}
use obsidian_sync.Drive.Resolve.Placed.{
  PathOf, at_root, IsPlaced, Resolves, resolve_vault_rel_path-Resolves,
}

abbrev get_folder : String → FolderReply
get_folder id = if id == "f1" then folder_meta "notes" ("root" ∷ []) else folder_meta "My Drive" []

abbrev caches : Caches
caches = record {
  folder_cache = [];
  folder_id_to_rel = ("root", "") ∷ [];
  vault_folder_ids = "root" ∷ [];
  non_vault_ids = [];
  tombstones_folder_id = none;
}

caches-IsPlaced : IsPlaced get_folder "root" caches
unfolding lookup
caches-IsPlaced id rel found = elim (Bool-cases ("root" == id)) [
  | inl same ↦
      subst (λ x. PathOf get_folder "root" x rel) ((eq_iff "root" id).0 same)
        (subst (λ r. PathOf get_folder "root" "root" r) (cc (rw same at found)) at_root)
  | inr other ↦ absurd (cc (rw other at found))
]

resolve_vault_rel_path-Resolves_example :
    Resolves get_folder "root" "f1" "a.md"
      (resolve_vault_rel_path get_folder "root" ("f1" ∷ []) "a.md" caches)
resolve_vault_rel_path-Resolves_example =
    resolve_vault_rel_path-Resolves get_folder "root" "f1" [] "a.md" caches caches-IsPlaced
