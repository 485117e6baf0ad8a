-- ===== src/Trash/Restore.antt =====
-- A deleted file can be restored.
use text.Mathlib.TextPositions.{eq_refl}
use obsidian_sync.Base.{
  ℕ, String, ◌≡◌, sym, subst, inl, inr, Option, none, some, Dict, lookup, insert, remove,
  lookup-insert, lookup-remove, ◌==◌, eq_iff, Bool-cases,
}
use obsidian_sync.Vault.{LocalFile, Vault}
use obsidian_sync.Trash.{Trash, no_fault, move, restore, drop_item, trash_meta}

-- Restoring gives the file back, and each other file and item is as it was.
pub record Undoes (id path : String) (vault : Vault) (trash : Trash) (v : Vault) (t : Trash)
    : Type 0 where
  pub vault_as_before : (p : String) → lookup p v ≡ lookup p vault
  pub bodies_as_before : (i : String) → lookup i t.bodies ≡ lookup i trash.bodies
  pub metas_as_before : (i : String) → lookup i t.metas ≡ lookup i trash.metas

remove-insert {ℓ} :
    {A : Type ℓ} (k : String) (a : A) (d : Dict A) (j : String)
    → lookup k d ≡ none
    → lookup j (remove k (insert k a d)) ≡ lookup j d
remove-insert k a d j absent = elim (Bool-cases (k == j)) [
  | inl same ↦
      rw (lookup-remove, same) (sym (subst (λ i. lookup i d ≡ none) ((eq_iff k j).0 same) absent))
  | inr other ↦ rw (lookup-remove, lookup-insert, other)
]

insert-remove {ℓ} :
    {A : Type ℓ} (k : String) (a : A) (d : Dict A) (j : String)
    → lookup k d ≡ some a
    → lookup j (insert k a (remove k d)) ≡ lookup j d
insert-remove k a d j there = elim (Bool-cases (k == j)) [
  | inl same ↦
      rw (lookup-insert, same) (sym (subst (λ i. lookup i d ≡ some a) ((eq_iff k j).0 same) there))
  | inr other ↦ rw (lookup-insert, lookup-remove, other)
]

-- A file that was moved to the trash under a new id is restored by that id to its path: the vault and
-- the trash then have at each path and id what they had.
pub restore-move :
    (id : String) (now : ℕ) (path : String) (md5 : Option String) (vault : Vault) (trash : Trash)
    (f : LocalFile)
    → lookup path vault ≡ some f
    → lookup id trash.bodies ≡ none
    → lookup id trash.metas ≡ none
    → let m = move no_fault id now path md5 vault trash in
      (v : Vault) × (t : Trash) × (restore id path m.vault m.trash ≡ some (v, t))
      × Undoes id path vault trash v t
unfolding drop_item move restore
restore-move id now path md5 vault trash f there new_body new_meta =
    let bodies = insert id f trash.bodies in
    let metas = insert id (some (trash_meta now path f md5)) trash.metas in
    rw (there, move)
      (
        insert path f (remove path vault),
        drop_item id (record { bodies = bodies; metas = metas }),
        rw (restore, lookup-insert, eq_refl id),
        record {
          vault_as_before = λ p. insert-remove path f vault p there;
          bodies_as_before = λ i. remove-insert id f trash.bodies i new_body;
          metas_as_before =
              λ i. remove-insert id (some (trash_meta now path f md5)) trash.metas i new_meta;
        },
      )
