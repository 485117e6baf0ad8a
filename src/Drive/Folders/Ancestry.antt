-- ===== src/Drive/Folders/Ancestry.antt =====
-- Only folders below the vault's root count as the vault's.
use obsidian_sync.Base.{
  ℕ, zero, suc, String, Bool, true, false, ◌||◌, ◌≡◌, refl, subst, inl, inr, Option, none, some,
  List, [], ◌∷◌, ◌++◌, contains, contains-union, contains-append, union, false≢true, if_intro,
  eq_iff, Bool-cases, arith,
}
use text.Mathlib.TextPositions.{eq_refl}
use obsidian_sync.Drive.Folders.{
  Caches, Climb, outside, inside, further, climb_step, add_vault, add_non_vault, climb,
  is_under_vault, is_in_vault,
}

module _ (get_parents : String → Option (List String)) (root : String) where
  -- The folder is the root, or its first parents lead to it.
  pub data Below : String → Type 0 where
    at_root : Below root
    under :
        (id parent_id : String) (others : List String)
        → get_parents id ≡ some (parent_id ∷ others)
        → Below parent_id
        → Below id

  -- the cached ids of the vault are those of folders below the root
  abbrev pub IsSound : List String → Type 0
  IsSound ids = (id : String) → contains ids id ≡ true → Below id

  union-IsSound : (xs ys : List String) → IsSound xs → IsSound ys → IsSound (union xs ys)
  union-IsSound xs ys sound more id h = elim (Bool-cases (contains xs id)) [
    | inl old ↦ sound id old
    | inr added ↦ more id (ground (arith, contains-union xs ys id, added))
  ]

  append-IsSound :
      (xs : List String) (id : String) → IsSound xs → Below id → IsSound (xs ++ (id ∷ []))
  unfolding contains
  append-IsSound xs id sound below k h = elim (Bool-cases (contains xs k)) [
    | inl old ↦ sound k old
    | inr last ↦ subst Below (last_one (contains-append xs (id ∷ []) k) last) below
  ]
    where
      last_one :
          contains (xs ++ (id ∷ [])) k ≡ contains xs k || contains (id ∷ []) k
          → contains xs k ≡ false
          → id ≡ k
      last_one e last = ground (arith, e, last, h, eq_iff id k)

  abbrev Allowed : Caches → String → Climb → Type 0
  Allowed c current outside = Unit
  Allowed c current inside = Below current
  Allowed c current (further parent_id) = Below parent_id → Below current

  climb_step-Allowed :
      (c : Caches) (current : String)
      → IsSound c.vault_folder_ids
      → (answer : Option (List String)) → get_parents current ≡ answer
      → Allowed c current (climb_step c answer)
  unfolding climb_step
  climb_step-Allowed c current sound none h = tt
  climb_step-Allowed c current sound (some []) h = tt
  climb_step-Allowed c current sound (some (parent_id ∷ others)) h =
      let P = Allowed c current in
      if_intro P (contains c.vault_folder_ids parent_id) _ _
        (λ known. under current parent_id others h (sound parent_id known))
        (λ _.
          if_intro P (contains c.non_vault_ids parent_id) _ _ (λ _. tt)
            (λ _. under current parent_id others h))

  -- what an answer of the search says
  abbrev pub Says : String → Option (Caches × Bool) → Type 0
  Says folder none = Unit
  Says folder (some (c, found)) = IsSound c.vault_folder_ids × (found ≡ true → Below folder)

  passed :
      {current parent_id : String} (r : Option (Caches × Bool))
      → (Below parent_id → Below current)
      → Says parent_id r
      → Says current r
  passed none h says = tt
  passed (some (c, found)) h says = (says.0, λ n. h (says.1 n))

  climb-Says :
      (fuel : ℕ) (path_ids : List String) (current : String) (c : Caches)
      → IsSound c.vault_folder_ids
      → (Below current → IsSound path_ids)
      → Says current (climb get_parents fuel path_ids current c)
  unfolding climb add_vault add_non_vault
  climb-Says zero path_ids current c sound path = tt
  climb-Says (suc fuel) path_ids current c sound path =
      go (climb_step c (get_parents current))
        (climb_step-Allowed c current sound (get_parents current) refl) (climb-Says fuel)
    where
      go :
          (step : Climb)
          → Allowed c current step
          → ((path_ids : List String) (current : String) (c : Caches)
              → IsSound c.vault_folder_ids
              → (Below current → IsSound path_ids)
              → Says current (climb get_parents fuel path_ids current c))
          → Says current (elim step as (λ x. Option (Caches × Bool)) [
            | outside ↦ some (add_non_vault path_ids c, false)
            | inside ↦ some (add_vault path_ids c, true)
            | further parent_id ↦ climb get_parents fuel (path_ids ++ (parent_id ∷ [])) parent_id c
          ])
      go outside h later = (sound, λ n. cc n)
      go inside h later = (union-IsSound c.vault_folder_ids path_ids sound (path h), λ n. h)
      go (further parent_id) h later =
          passed (climb get_parents fuel (path_ids ++ (parent_id ∷ [])) parent_id c) h (
            later (path_ids ++ (parent_id ∷ [])) parent_id c sound
              (λ below. append-IsSound path_ids parent_id (path (h below)) below))

  is_under_vault-Says :
      (fuel : ℕ) (folder_id : String) (c : Caches)
      → IsSound c.vault_folder_ids
      → Says folder_id (is_under_vault get_parents fuel folder_id c)
  unfolding is_under_vault contains
  is_under_vault-Says fuel folder_id c sound =
      let P = Says folder_id in
      if_intro P (contains c.vault_folder_ids folder_id) _ _
        (λ known. (sound, λ _. sound folder_id known))
        (λ _.
          if_intro P (contains c.non_vault_ids folder_id) _ _ (λ _. (sound, λ n. cc n))
            (λ _.
              climb-Says fuel (folder_id ∷ []) folder_id c sound
                (λ below. append-IsSound [] folder_id (λ k h. absurd (false≢true h)) below)))

  -- one of the parents is below the root
  abbrev pub SomeBelow : List String → Type 0
  SomeBelow parents = (id : String) × (contains parents id ≡ true) × Below id

  abbrev pub SaysParents : List String → Option (Caches × Bool) → Type 0
  SaysParents parents none = Unit
  SaysParents parents (some (c, found)) =
      IsSound c.vault_folder_ids × (found ≡ true → SomeBelow parents)

  later_parent :
      (parent_id : String) (parents : List String) (r : Option (Caches × Bool))
      → SaysParents parents r
      → SaysParents (parent_id ∷ parents) r
  unfolding contains
  later_parent parent_id parents none says = tt
  later_parent parent_id parents (some (c, found)) says = (
    says.0,
    λ n. let some_below = says.1 n in (some_below.0, ground (arith, some_below.1), some_below.2),
  )

  first_parent :
      (parent_id : String) (parents : List String)
      → Below parent_id
      → SomeBelow (parent_id ∷ parents)
  unfolding contains
  first_parent parent_id parents below = (parent_id, ground (arith, eq_refl parent_id), below)

  pub is_in_vault-SaysParents :
      (fuel : ℕ) (parents : List String) (c : Caches)
      → IsSound c.vault_folder_ids
      → SaysParents parents (is_in_vault get_parents fuel parents c)
  unfolding is_in_vault
  is_in_vault-SaysParents fuel [] c sound = (sound, λ n. cc n)
  is_in_vault-SaysParents fuel (parent_id ∷ parents) c sound =
      let P = SaysParents (parent_id ∷ parents) in
      if_intro P (contains c.vault_folder_ids parent_id) _ _
        (λ known. (sound, λ _. first_parent parent_id parents (sound parent_id known)))
        (λ _.
          if_intro P (contains c.non_vault_ids parent_id) _ _
            (λ _. later_parent parent_id parents _ (is_in_vault-SaysParents fuel parents c sound))
            (λ _.
              asked (is_under_vault get_parents fuel parent_id c)
                (is_under_vault-Says fuel parent_id c sound)
                (is_in_vault-SaysParents fuel parents)))
    where
      asked :
          (r : Option (Caches × Bool))
          → Says parent_id r
          → ((c : Caches)
              → IsSound c.vault_folder_ids
              → SaysParents parents (is_in_vault get_parents fuel parents c))
          → SaysParents (parent_id ∷ parents) (elim r as (λ x. Option (Caches × Bool)) [
            | none ↦ none
            | some (c', true) ↦ some (c', true)
            | some (c', false) ↦ is_in_vault get_parents fuel parents c'
          ])
      asked none says rest = tt
      asked (some (c', true)) says rest =
          (says.0, λ n. first_parent parent_id parents (says.1 refl))
      asked (some (c', false)) says rest =
          later_parent parent_id parents (is_in_vault get_parents fuel parents c') (rest c' says.0)
