-- ===== src/Conflict.antt =====
-- src/conflict.py: conflict copies. The path library and the clock's formatting are parameters.
pub mod Copies
use Prim.Native.String.{◌++◌ as ◌+text◌}
use obsidian_sync.Base.{
  ℕ, zero, suc, ◌+◌, String, Bool, true, false, Option, none, some, List, [], ◌∷◌, Dict, lookup,
  insert, contains, keys, if◌then◌else◌, first_chars, ◌==◌,
}
use obsidian_sync.Vault.{LocalFile, Vault}

-- `Path(path)`: the parent, the stem and the suffix with its dot
pub record PathParts : Type 0 where
  pub parent : String
  pub stem : String
  pub suffix : String

-- `stamp n` is the text of the time that is `n` seconds after now, and `micro_stamp` that of now with
-- its microseconds.
pub record Naming : Type 0 where
  pub parts : String → PathParts
  pub stamp : ℕ → String
  pub micro_stamp : String
  pub device_prefix : String

-- what `resolve` returns
pub data Resolution : Type 0 where
  conflict_created auto_resolved : Resolution

module _ (n : Naming) where
  unfoldable pub conflict_name : PathParts → String → String
  conflict_name p stamp =
      p.stem +text ".sync-conflict-" +text stamp +text "-" +text n.device_prefix +text p.suffix

  -- the name in the parent directory
  unfoldable pub candidate : String → String → String
  unfolding conflict_name
  candidate path stamp =
      let p = n.parts path in
      if p.parent == "."
      then conflict_name p stamp
      else p.parent +text "/" +text conflict_name p stamp

  -- The loop, with this number of names left to try after the seconds that are already added.
  unfoldable pub pick_name : String → Vault → ℕ → ℕ → String
  unfolding candidate
  pick_name path vault zero attempts = candidate path n.micro_stamp
  pick_name path vault (suc left) attempts =
      let name = candidate path (n.stamp attempts) in
      let later = pick_name path vault left (attempts + 1) in
      if contains (keys vault) name then later else name

  unfoldable pub build_conflict_path : String → Vault → String
  unfolding pick_name
  build_conflict_path path vault = pick_name path vault 61 0

  -- The vault, and what `resolve` returns, `none` for an exception of the copying.
  unfoldable pub resolve_files : Bool → String → Vault → Vault × Option Resolution
  unfolding build_conflict_path
  resolve_files copy_fails path vault = elim (lookup path vault) [
    | none ↦ (vault, some auto_resolved)
    | some f ↦
        if copy_fails
        then (vault, none)
        else (insert (build_conflict_path path vault) f vault, some conflict_created)
  ]
