-- ===== src/Scripts/StrayRoot/Stray.antt =====
-- scripts/cleanup_stray_root_files.py: what makes a candidate.
use obsidian_sync.Base.{
  In, here, there, In-split, In-one, In-nil, String, true, false, ◌≡◌, refl, sym, subst, inl, inr,
  Option, none, some, List, [], ◌∷◌, Dict, lookup, Bool-cases, Option-cases, last_segment, arith,
}
use obsidian_sync.Scripts.{is_root_path, index_by, indexed, filtered}
use obsidian_sync.Scripts.Indexes.{Indexes, index_by-Indexes, filtered-In}
use obsidian_sync.Scripts.StrayRoot.{
  is_conflict_name, Reason, conflict_copy_at_root, duplicate_of_subfolder_original,
  samename_in_subfolder, Candidate, StateItem, drive_key, name_key, is_original, samename,
  duplicate, same_drive_id, candidate_of, candidates_of, find_candidates,
}

-- an item of the files, in a subfolder
abbrev pub InSubfolder : Dict (Option String) → StateItem → Type 0
InSubfolder files item = In item files × (is_root_path item.0 ≡ false)

-- what a candidate's reason says
abbrev pub Justifies :
    Dict (Option String) → String → Option String → Option String → Reason → Type 0
Justifies files path id original conflict_copy_at_root = is_conflict_name path ≡ true
Justifies files path id original duplicate_of_subfolder_original =
    (item : StateItem) × (key : String) × (original ≡ some item.0)
    × InSubfolder files item
    × (drive_key (path, id) ≡ some key)
    × (drive_key item ≡ some key)
Justifies files path id original samename_in_subfolder =
    (item : StateItem) × (original ≡ some item.0)
    × InSubfolder files item
    × (last_segment item.0 ≡ path)

abbrev pub IsStray : Dict (Option String) → Candidate → Type 0
IsStray files c =
    In (c.path, c.drive_id) files
    × (is_root_path c.path ≡ true)
    × Justifies files c.path c.drive_id c.original_path c.reason

-- a found candidate, if there is one
abbrev Stray : Dict (Option String) → Option Candidate → Type 0
Stray files none = Unit
Stray files (some c) = IsStray files c

module _ (files : Dict (Option String)) where
  original-InSubfolder :
      (path : String) (item : StateItem)
      → is_original path item ≡ true
      → is_root_path item.0 ≡ false
  unfolding is_original
  original-InSubfolder path item h = ground (arith, h)

  samename-Stray :
      (item : StateItem) (originals : List StateItem)
      → In item files
      → is_root_path item.0 ≡ true
      → ((o : StateItem) → In o originals → InSubfolder files o × (last_segment o.0 ≡ item.0))
      → Stray files (samename item originals)
  unfolding samename
  samename-Stray item [] there_is root from = tt
  samename-Stray item (o ∷ others) there_is root from =
      let r = from o (here others) in (there_is, root, (o, refl, r.0, r.1))

  duplicate-Stray :
      (item : StateItem) (originals : List StateItem) (otherwise : Option Candidate)
      → In item files
      → is_root_path item.0 ≡ true
      → ((o : StateItem)
          → In o originals
          → (key : String) × InSubfolder files o
            × (drive_key item ≡ some key)
            × (drive_key o ≡ some key))
      → Stray files otherwise
      → Stray files (duplicate item originals otherwise)
  unfolding duplicate
  duplicate-Stray item [] otherwise there_is root from s = s
  duplicate-Stray item (o ∷ others) otherwise there_is root from s =
      let (key, inside, own, same) = from o (here others) in
      (there_is, root, (o, key, refl, inside, own, same))

  same_drive_id-found :
      (index : Dict (List StateItem)) (item o : StateItem)
      → Indexes drive_key files index
      → In o (same_drive_id index item)
      → (key : String) × InSubfolder files o
        × (drive_key item ≡ some key)
        × (drive_key o ≡ some key)
  unfolding same_drive_id
  same_drive_id-found index item o holds h = elim (Option-cases (drive_key item)) [
    | inl none_is ↦ absurd (In-nil o (rw (same_drive_id, none_is) at h))
    | inr (key, own) ↦
        let k =
          filtered-In (is_original item.0) (indexed key index) o (rw (same_drive_id, own) at h) in
        let i = holds key o k.0 in (key, (i.0, original-InSubfolder item.0 o k.1), own, i.1)
  ]

  candidate_of-Stray :
      (by_drive_id by_basename : Dict (List StateItem)) (item : StateItem)
      → Indexes drive_key files by_drive_id
      → Indexes name_key files by_basename
      → In item files
      → Stray files (candidate_of by_drive_id by_basename item)
  unfolding candidate_of name_key
  candidate_of-Stray by_drive_id by_basename item ids names there_is =
      elim (Bool-cases (is_root_path item.0)) [
        | inr inside ↦ rw (candidate_of, inside) tt
        | inl root ↦ elim (Bool-cases (is_conflict_name item.0)) [
          | inl conflict ↦ rw (candidate_of, root, conflict) (there_is, root, conflict)
          | inr plain ↦
              rw (candidate_of, root, plain)
                (duplicate-Stray item (same_drive_id by_drive_id item) _ there_is root
                  (λ o h. same_drive_id-found by_drive_id item o ids h)
                  (samename-Stray item (filtered (is_original item.0) (indexed item.0 by_basename))
                    there_is root
                    (λ o h.
                      let k = filtered-In (is_original item.0) (indexed item.0 by_basename) o h in
                      let i = names item.0 o k.0 in
                      ((i.0, original-InSubfolder item.0 o k.1), cc (i.1)))))
        ]
      ]

  candidates_of-IsStray :
      (candidate : StateItem → Option Candidate) (items : List StateItem) (c : Candidate)
      → ((item : StateItem) → In item items → Stray files (candidate item))
      → In c (candidates_of candidate items)
      → IsStray files c
  unfolding candidates_of
  candidates_of-IsStray candidate [] c strays h = absurd (In-nil c h)
  candidates_of-IsStray candidate (item ∷ items) c strays h = elim (Option-cases (candidate item)) [
    | inl no_candidate ↦
        candidates_of-IsStray candidate items c (λ i k. strays i (there item items k))
          (rw (candidates_of, no_candidate) at h)
    | inr (found, e) ↦
        elim (In-split c (found ∷ []) (candidates_of candidate items)
          (rw (candidates_of, e) at h)) [
            | inl first ↦
                subst (IsStray files) (sym (In-one c found first))
                  (subst (Stray files) e (strays item (here items)))
            | inr later ↦
                candidates_of-IsStray candidate items c (λ i k. strays i (there item items k)) later
          ]
  ]

-- Every candidate is a file of the state at the root of the vault. Either its name is that of a
-- conflict copy, or the state has a file in a subfolder, named as the original, which has the same
-- Drive id or the same file name.
pub find_candidates-IsStray :
    (files : Dict (Option String)) (c : Candidate) → In c (find_candidates files) → IsStray files c
unfolding find_candidates indexed lookup
find_candidates-IsStray files c h =
    let ids =
      index_by-Indexes drive_key files files [] (λ x i. i) (λ key x i. absurd (In-nil x i)) in
    let names =
      index_by-Indexes name_key files files [] (λ x i. i) (λ key x i. absurd (In-nil x i)) in
    candidates_of-IsStray files
      (candidate_of (index_by drive_key files []) (index_by name_key files [])) files c
      (λ item i.
        candidate_of-Stray files (index_by drive_key files []) (index_by name_key files []) item ids
          names i)
      h
