-- ===== src/Drive/Folders/Tests.antt =====
-- A file two folders below the root, of which the caches only know the root.
use obsidian_sync.Base.{
  String, Bool, true, ◌≡◌, refl, subst, Option, none, some, List, [], ◌∷◌, contains, ◌==◌,
  if◌then◌else◌, eq_iff, arith,
}
use obsidian_sync.Drive.Folders.{Caches, is_in_vault}
use obsidian_sync.Drive.Folders.Ancestry.{Below, at_root, IsSound, SomeBelow}
use obsidian_sync.Drive.Folders.Depth.{Chain, top, next, AllChains, is_in_vault-SomeBelow}

abbrev get_parents : String → Option (List String)
get_parents id = if id == "notes" then some ("root" ∷ []) else some []

abbrev caches : Caches
caches = record {
  folder_cache = [];
  folder_id_to_rel = [];
  vault_folder_ids = "root" ∷ [];
  non_vault_ids = [];
  tombstones_folder_id = none;
}

caches-IsSound : IsSound get_parents "root" caches.vault_folder_ids
unfolding contains
caches-IsSound id h =
    subst (Below get_parents "root") ((eq_iff "root" id).0 (ground (arith, h))) at_root

notes-AllChains : AllChains get_parents 1 ("notes" ∷ [])
unfolding contains
notes-AllChains id h =
    subst (Chain get_parents 1) ((eq_iff "notes" id).0 (ground (arith, h)))
      (next 0 "notes" "root" [] refl (top 0 "root" refl))

is_in_vault-SomeBelow_example :
    (c' : Caches) × (found : Bool) × (is_in_vault get_parents 2 ("notes" ∷ []) caches
      ≡ some (c', found))
    × IsSound get_parents "root" c'.vault_folder_ids
    × (found ≡ true → SomeBelow get_parents "root" ("notes" ∷ []))
is_in_vault-SomeBelow_example =
    is_in_vault-SomeBelow get_parents "root" 1 ("notes" ∷ []) caches caches-IsSound notes-AllChains
