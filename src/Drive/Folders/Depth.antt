-- ===== src/Drive/Folders/Depth.antt =====
-- The search for the vault's root ends, if the chain of the parents does.
use obsidian_sync.Base.{
  ℕ, suc, String, Bool, true, false, ◌≡◌, refl, inl, inr, Option, none, some, List, [], ◌∷◌, ◌++◌,
  contains, is_some, if_intro, Bool-cases, arith,
}
use text.Mathlib.TextPositions.{eq_refl}
use obsidian_sync.Drive.Folders.{Caches, climb_step, climb, is_under_vault, is_in_vault}
use obsidian_sync.Drive.Folders.Ancestry.{IsSound, SomeBelow, SaysParents, is_in_vault-SaysParents}

module _ (get_parents : String → Option (List String)) where
  -- The requests for the first parents end, within so many steps, at a folder without parents or with
  -- an exception.
  pub data Chain : ℕ → String → Type 0 where
    failing : (n : ℕ) (id : String) → get_parents id ≡ none → Chain n id
    top : (n : ℕ) (id : String) → get_parents id ≡ some [] → Chain n id
    next :
        (n : ℕ) (id parent_id : String) (others : List String)
        → get_parents id ≡ some (parent_id ∷ others)
        → Chain n parent_id
        → Chain (suc n) id

  abbrev Answered : Option (Caches × Bool) → Type 0
  Answered r = is_some r ≡ true

  climb-Answered :
      (n : ℕ) (path_ids : List String) (current : String) (c : Caches)
      → Chain n current
      → Answered (climb get_parents (suc n) path_ids current c)
  unfolding climb climb_step
  climb-Answered n path_ids current c (failing m id h) = rw (climb, h) refl
  climb-Answered n path_ids current c (top m id h) = rw (climb, h) refl
  climb-Answered _ path_ids current c (next m id parent_id others h chain) =
      let later = climb-Answered m (path_ids ++ (parent_id ∷ [])) parent_id c chain in
      elim (Bool-cases (contains c.vault_folder_ids parent_id)) [
        | inl known ↦ rw (climb, h, known) refl
        | inr unknown ↦ elim (Bool-cases (contains c.non_vault_ids parent_id)) [
          | inl foreign ↦ rw (climb, h, unknown, foreign) refl
          | inr neither ↦ rw (climb, h, unknown, neither) later
        ]
      ]

  is_under_vault-Answered :
      (n : ℕ) (folder_id : String) (c : Caches)
      → Chain n folder_id
      → Answered (is_under_vault get_parents (suc n) folder_id c)
  unfolding is_under_vault
  is_under_vault-Answered n folder_id c chain =
      if_intro Answered (contains c.vault_folder_ids folder_id) _ _ (λ _. refl)
        (λ _.
          if_intro Answered (contains c.non_vault_ids folder_id) _ _ (λ _. refl)
            (λ _. climb-Answered n (folder_id ∷ []) folder_id c chain))

  -- the parents of a file have such chains
  abbrev pub AllChains : ℕ → List String → Type 0
  AllChains n parents = (id : String) → contains parents id ≡ true → Chain n id

  is_in_vault-Answered :
      (n : ℕ) (parents : List String) (c : Caches)
      → AllChains n parents
      → Answered (is_in_vault get_parents (suc n) parents c)
  unfolding is_in_vault contains
  is_in_vault-Answered n [] c chains = refl
  is_in_vault-Answered n (parent_id ∷ parents) c chains =
      let rest = is_in_vault-Answered n parents in
      let rest_chains : AllChains n parents = λ id h. chains id (ground (arith, h)) in
      if_intro Answered (contains c.vault_folder_ids parent_id) _ _ (λ _. refl)
        (λ _.
          if_intro Answered (contains c.non_vault_ids parent_id) _ _ (λ _. rest c rest_chains)
            (λ _.
              asked (is_under_vault get_parents (suc n) parent_id c)
                (is_under_vault-Answered n parent_id c
                  (chains parent_id (ground (arith, eq_refl parent_id))))
                (λ c'. rest c' rest_chains)))
    where
      asked :
          (r : Option (Caches × Bool))
          → Answered r
          → ((c : Caches) → Answered (is_in_vault get_parents (suc n) parents c))
          → Answered (elim r as (λ x. Option (Caches × Bool)) [
            | none ↦ none
            | some (c', true) ↦ some (c', true)
            | some (c', false) ↦ is_in_vault get_parents (suc n) parents c'
          ])
      asked none h rest = cc h
      asked (some (c', true)) h rest = refl
      asked (some (c', false)) h rest = rest c'

  answer_of :
      (root : String) (parents : List String) (r : Option (Caches × Bool))
      → Answered r
      → SaysParents get_parents root parents r
      → (c' : Caches) × (found : Bool) × (r ≡ some (c', found))
        × IsSound get_parents root c'.vault_folder_ids
        × (found ≡ true → SomeBelow get_parents root parents)
  answer_of root parents none h says = absurd (cc h)
  answer_of root parents (some (c', found)) h says = (c', found, refl, says.0, says.1)

-- If the cached ids of the vault are of folders below the root, and the chain of first parents of each
-- parent ends within `n` steps, then fuel `n + 1` is enough for the test of a file: the cached ids of the
-- vault are again of folders below the root, and a file that counts as the vault's has a parent below
-- the root.
pub is_in_vault-SomeBelow :
    (get_parents : String → Option (List String)) (root : String) (n : ℕ) (parents : List String)
    (c : Caches)
    → IsSound get_parents root c.vault_folder_ids
    → AllChains get_parents n parents
    → (c' : Caches) × (found : Bool) × (is_in_vault get_parents (suc n) parents c
        ≡ some (c', found))
      × IsSound get_parents root c'.vault_folder_ids
      × (found ≡ true → SomeBelow get_parents root parents)
is_in_vault-SomeBelow get_parents root n parents c sound chains =
    answer_of get_parents root parents (is_in_vault get_parents (suc n) parents c)
      (is_in_vault-Answered get_parents n parents c chains)
      (is_in_vault-SaysParents get_parents root (suc n) parents c sound)
