-- ===== src/Conflict/Copies.antt =====
-- A conflict copy is a new file with the local content.
use text.Mathlib.TextPositions.{eq_refl}
use obsidian_sync.Base.{
  ℕ, zero, suc, ◌+◌, ◌≤◌, ◌<◌, String, Bool, true, false, ◌≡◌, ◌≢◌, refl, sym, ap, ◌∙◌, inl, inr,
  Option, none, some, lookup, insert, lookup-insert, contains, keys, contains-keys, is_some,
  if◌then◌else◌, ◌==◌, eq_iff, Bool-cases, arith,
}
use obsidian_sync.Vault.{LocalFile, Vault}
use obsidian_sync.Conflict.{
  Naming, candidate, pick_name, build_conflict_path, resolve_files, conflict_created,
}

module _ (n : Naming) (path : String) (vault : Vault) where
  abbrev exists : ℕ → Bool
  exists k = contains (keys vault) (candidate n path (n.stamp k))

  not_taken : (i j : ℕ) → exists i ≡ true → exists j ≡ false → i ≢ j
  not_taken i j taken free e = cc (sym taken ∙ ap exists e ∙ free)

  pick_name-new :
      (left attempts j : ℕ)
      → exists j ≡ false
      → attempts ≤ j
      → j < attempts + left
      → contains (keys vault) (pick_name n path vault left attempts) ≡ false
  unfolding pick_name
  pick_name-new zero attempts j free low high = absurd (omega arith)
  pick_name-new (suc left) attempts j free low high = elim (Bool-cases (exists attempts)) [
    | inl taken ↦
        let other = not_taken attempts j taken free in
        rw taken (pick_name-new left (attempts + 1) j free (omega arith) (omega arith))
    | inr unused ↦ rw unused unused
  ]

  -- If one of the 61 names is free, the path chosen for the copy is free.
  build_conflict_path-new :
      (j : ℕ)
      → exists j ≡ false
      → j ≤ 60
      → contains (keys vault) (build_conflict_path n path vault) ≡ false
  unfolding build_conflict_path
  build_conflict_path-new j free h = pick_name-new 61 0 j free (omega arith) (omega arith)

-- A new file has the content of `f`, and every file that was there is as it was.
pub record Copies (f : LocalFile) (before after : Vault) : Type 0 where
  pub copy : String
  pub copy_new : lookup copy before ≡ none
  pub copied : lookup copy after ≡ some f
  pub kept : (p : String) (g : LocalFile) → lookup p before ≡ some g → lookup p after ≡ some g

none_of : {A : Type 0} (o : Option A) → is_some o ≡ false → o ≡ none
none_of none h = refl
none_of (some a) h = cc h

insert-Copies :
    (copy : String) (f : LocalFile) (vault : Vault)
    → lookup copy vault ≡ none
    → Copies f vault (insert copy f vault)
insert-Copies copy f vault fresh = record {
  copy = copy;
  copy_new = fresh;
  copied = lookup-insert copy copy f vault ∙ rw (eq_refl copy);
  kept = λ p g there. lookup-insert copy p f vault ∙ kept p g there;
}
  where
    kept :
        (p : String) (g : LocalFile)
        → lookup p vault ≡ some g
        → (if copy == p then some f else lookup p vault) ≡ some g
    kept p g there = elim (Bool-cases (copy == p)) [
      | inl same ↦ cc (there, fresh, (eq_iff copy p).0 same)
      | inr other ↦ rw other there
    ]

-- If the file is there, one of the 61 names is free, and copying does not fail, then resolving a
-- conflict makes a copy under a new path, and changes no file.
pub resolve_files-Copies :
    (n : Naming) (path : String) (vault : Vault) (f : LocalFile) (j : ℕ)
    → lookup path vault ≡ some f
    → contains (keys vault) (candidate n path (n.stamp j)) ≡ false
    → j ≤ 60
    → Copies f vault (resolve_files n false path vault).0
      × ((resolve_files n false path vault).1 ≡ some conflict_created)
unfolding resolve_files
resolve_files-Copies n path vault f j there free h =
    let name = build_conflict_path n path vault in
    let fresh =
      none_of (lookup name vault)
        (sym (contains-keys name vault) ∙ build_conflict_path-new n path vault j free h) in
    rw (there, resolve_files) (insert-Copies name f vault fresh, refl)
