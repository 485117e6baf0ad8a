-- ===== src/Scripts/DriveDuplicates/Doubled.antt =====
-- scripts/cleanup_drive_root_duplicates.py: which files the script moves to Drive's trash.
use obsidian_sync.Base.{
  ℕ, ◌+◌, String, true, false, ◌≡◌, refl, sym, subst, ◌⊎◌, inl, inr, Option, none, some, List, [],
  ◌∷◌, Dict, lookup, Bool-cases, Option-cases, ◌==◌, some_or, has_char, last_segment, In, here,
  there, In-split, In-one, In-nil, arith,
}
use obsidian_sync.Drive.{ListedFile}
use obsidian_sync.Drive.Retry.{Executed, returned, file_missing, token_gone, passed_on}
use obsidian_sync.Drive.Client.{
  Service, Session, Stored, empty_body, Call, update_file, and_then, pure, update_with,
  request_with_retry,
}
use obsidian_sync.Drive.Client.Content.{hard_delete}
use obsidian_sync.Scripts.{is_root_path, index_by, indexed, filtered}
use obsidian_sync.Scripts.Indexes.{Indexes, index_by-Indexes, filtered-In}
use obsidian_sync.Scripts.DriveDuplicates.{
  rel_of, basename_of, Duplicate, is_other_in_subfolder, duplicate_with, duplicate_of,
  duplicates_of, find_duplicates, one_moved, trash_all, clean_up,
}

-- the file stands at the root, and another one of the same name in a subfolder
abbrev pub IsDoubled : List ListedFile → Duplicate → Type 0
IsDoubled files d =
    (item : ListedFile) × (other : ListedFile) × In item files
    × In other files
    × (d.id ≡ item.id)
    × (is_root_path (rel_of item) ≡ true)
    × (last_segment (rel_of other) ≡ rel_of item)
    × (other.id == item.id ≡ false)
    × (has_char 47 (some_or other.relative_path "") ≡ true)

abbrev Doubled : List ListedFile → Option Duplicate → Type 0
Doubled files none = Unit
Doubled files (some d) = IsDoubled files d

module _ (files : List ListedFile) where
  duplicate_with-Doubled :
      (item : ListedFile) (others : List ListedFile)
      → In item files
      → is_root_path (rel_of item) ≡ true
      → ((o : ListedFile)
          → In o others
          → In o files
            × (last_segment (rel_of o) ≡ rel_of item)
            × (is_other_in_subfolder item o ≡ true))
      → Doubled files (duplicate_with item others)
  unfolding duplicate_with is_other_in_subfolder
  duplicate_with-Doubled item [] there_is root from = tt
  duplicate_with-Doubled item (o ∷ others) there_is root from =
      let r = from o (here others) in
      (item, o, there_is, r.0, refl, root, r.1, ground (arith, r.2), ground (arith, r.2))

  duplicate_of-Doubled :
      (index : Dict (List ListedFile)) (item : ListedFile)
      → Indexes basename_of files index
      → In item files
      → Doubled files (duplicate_of index item)
  unfolding duplicate_of basename_of
  duplicate_of-Doubled index item names there_is = elim (Bool-cases (is_root_path (rel_of item))) [
    | inr inside ↦ rw (duplicate_of, inside) tt
    | inl root ↦
        rw (duplicate_of, root)
          (duplicate_with-Doubled item
            (filtered (is_other_in_subfolder item) (indexed (rel_of item) index)) there_is root
            (λ o h.
              let k = filtered-In (is_other_in_subfolder item) (indexed (rel_of item) index) o h in
              let i = names (rel_of item) o k.0 in (i.0, cc (i.1), k.1)))
  ]

  duplicates_of-IsDoubled :
      (duplicate : ListedFile → Option Duplicate) (items : List ListedFile) (d : Duplicate)
      → ((item : ListedFile) → In item items → Doubled files (duplicate item))
      → In d (duplicates_of duplicate items)
      → IsDoubled files d
  unfolding duplicates_of
  duplicates_of-IsDoubled duplicate [] d doubled h = absurd (In-nil d h)
  duplicates_of-IsDoubled duplicate (item ∷ items) d doubled h =
      elim (Option-cases (duplicate item)) [
        | inl no_duplicate ↦
            duplicates_of-IsDoubled duplicate items d (λ i k. doubled i (there item items k))
              (rw (duplicates_of, no_duplicate) at h)
        | inr (found, e) ↦
            elim (In-split d (found ∷ []) (duplicates_of duplicate items)
              (rw (duplicates_of, e) at h)) [
                | inl first ↦
                    subst (IsDoubled files) (sym (In-one d found first))
                      (subst (Doubled files) e (doubled item (here items)))
                | inr later ↦
                    duplicates_of-IsDoubled duplicate items d
                      (λ i k. doubled i (there item items k)) later
              ]
      ]

  find_duplicates-IsDoubled : (d : Duplicate) → In d (find_duplicates files) → IsDoubled files d
  unfolding find_duplicates indexed lookup
  find_duplicates-IsDoubled d h =
      let names =
        index_by-Indexes basename_of files files [] (λ x i. i) (λ key x i. absurd (In-nil x i)) in
      duplicates_of-IsDoubled (duplicate_of (index_by basename_of files [])) files d
        (λ item i. duplicate_of-Doubled (index_by basename_of files []) item names i) h

-- the request that moves a file to Drive's trash
abbrev pub to_trash : String → Call
to_trash id = update_file id (record empty_body { trashed = true })

module _ (service : Service) where
  hard_delete-sent :
      (id : String) (s : Session) → (hard_delete service id s).0.sent ≡ to_trash id ∷ s.sent
  unfolding hard_delete update_with request_with_retry
  hard_delete-sent id s =
      by_end (update_with service (some id) id (record empty_body { trashed = true }) s) refl
    where
      by_end :
          (r : Session × Executed Stored)
          → r.0.sent ≡ to_trash id ∷ s.sent
          → (and_then {B = Unit {0}} r (λ _. pure tt)).0.sent ≡ to_trash id ∷ s.sent
      by_end (t, returned a) e = e
      by_end (t, file_missing missing) e = e
      by_end (t, token_gone) e = e
      by_end (t, passed_on) e = e

  -- a request of the loop, among all that were sent
  Trashes : List Duplicate → Call → List Call → Type 0
  Trashes ds call sent = In call sent ⊎ ((d : Duplicate) × In d ds × (call ≡ to_trash d.id))

  trash_all-Trashes :
      (ds : List Duplicate) (s : Session) (moved : ℕ) (call : Call)
      → In call (trash_all service ds s moved).0.sent
      → Trashes ds call s.sent
  unfolding trash_all Trashes
  trash_all-Trashes [] s moved call h = inl h
  trash_all-Trashes (d ∷ ds) s moved call h =
      let r = hard_delete service d.id s in
      elim (trash_all-Trashes ds r.0 (moved + one_moved r.1) call h) [
        | inr (d', i, e) ↦ inr (d', there d ds i, e)
        | inl sent ↦
            elim (In-split call (to_trash d.id ∷ []) s.sent
              (subst (In call) (hard_delete-sent d.id s) sent)) [
                | inl first ↦ inr (d, here ds, In-one call (to_trash d.id) first)
                | inr before ↦ inl before
              ]
      ]

  -- All that the script asks of Drive after its listing is to move files to the trash, with `--apply`
  -- only; and each of these stands at the root of the vault, while another file of the same name, with
  -- another id, stands in a subfolder.
  pub clean_up-Doubled :
      (all_files : List ListedFile) (s : Session)
      → (clean_up service false all_files s ≡ (s, 0))
        × ((call : Call)
            → In call (clean_up service true all_files s).0.sent
            → In call s.sent ⊎ ((d : Duplicate) × IsDoubled all_files d × (call ≡ to_trash d.id)))
  unfolding clean_up Trashes
  clean_up-Doubled all_files s = (
    refl,
    λ call h. elim (trash_all-Trashes (find_duplicates all_files) s 0 call h) [
      | inl before ↦ inl before
      | inr (d, i, e) ↦ inr (d, find_duplicates-IsDoubled all_files d i, e)
    ],
  )
