-- ===== src/Scripts.antt =====
-- scripts: the maintenance scripts.
pub mod Indexes
pub mod StrayRoot
pub mod DriveDuplicates
use obsidian_sync.Base.{
  ℕ, String, Bool, not, ◌&&◌, Option, none, some, List, [], ◌∷◌, ◌++◌, Dict, lookup, insert,
  has_char, some_or, if◌then◌else◌,
}

-- `"/" not in rel and "\\" not in rel`
unfoldable pub is_root_path : String → Bool
unfolding has_char
is_root_path rel = not (has_char 47 rel) && not (has_char 92 rel)

module _ {A : Type 0} where
  -- `index.setdefault(key, []).append(x)`
  unfoldable pub append_to : String → A → Dict (List A) → Dict (List A)
  unfolding lookup insert
  append_to key x index = insert key (some_or (lookup key index) [] ++ (x ∷ [])) index

  -- The values under each key, in their order; those with no key are left out.
  unfoldable pub index_by : (A → Option String) → List A → Dict (List A) → Dict (List A)
  unfolding append_to
  index_by key_of [] index = index
  index_by key_of (x ∷ xs) index =
      index_by key_of xs (elim (key_of x) [ none ↦ index | some key ↦ append_to key x index ])

  -- `index.get(key, [])`
  unfoldable pub indexed : String → Dict (List A) → List A
  unfolding lookup
  indexed key index = some_or (lookup key index) []

  -- `[x for x in xs if keep(x)]`
  unfoldable pub filtered : (A → Bool) → List A → List A
  filtered keep [] = []
  filtered keep (x ∷ xs) = let rest = filtered keep xs in if keep x then x ∷ rest else rest
