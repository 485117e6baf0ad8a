-- ===== src/Scripts/StrayRoot/Tests.antt =====
-- A vault with a copy at its root of a note in a subfolder, and a conflict copy.
use obsidian_sync.Base.{
  Bool, ◌==◌, eq_iff, sym, subst, String, true, false, ◌≡◌, refl, Option, none, some, [], ◌∷◌, Dict,
  map, In, here,
}
use obsidian_sync.Vault.{Vault, LocalFile}
use obsidian_sync.Base.{pos}
use obsidian_sync.Scripts.{is_root_path}
use obsidian_sync.Scripts.StrayRoot.{
  Candidate, samename_in_subfolder, is_conflict_name, find_candidates, main, after_prefix,
}
use obsidian_sync.Scripts.StrayRoot.Spared.{Kept, Beside, Spares, main-Spares}

abbrev state : Dict (Option String)
state =
    ("daily/a.md", some "1")
    ∷ ("a.md", some "2")
    ∷ ("b.conflict-laptop-20240102-030405.md", none)
    ∷ ("c.md", some "3")
    ∷ []

abbrev copy : Candidate
copy = record {
  path = "a.md";
  drive_id = some "2";
  reason = samename_in_subfolder;
  original_path = some "daily/a.md";
}

found :
    map (λ c. c.path) (find_candidates state) ≡ "a.md" ∷ "b.conflict-laptop-20240102-030405.md" ∷ []
unfolding find_candidates
found = refl

no_stamp : is_conflict_name "b.conflict-laptop-2024-030405.md" ≡ false
unfolding is_conflict_name
no_stamp = refl

copy-In : In copy (find_candidates state)
unfolding find_candidates
copy-In = here _

abbrev note : LocalFile
note = record { mtime = 1; size = pos 2; content = "x" }

abbrev vault : Vault
vault = ("daily/a.md", note) ∷ ("a.md", note) ∷ []

daily-Kept : Kept "daily/a.md"
unfolding is_root_path
daily-Kept = (refl, refl)

-- at the path of a candidate stands a folder, which is not that of the note
abbrev folder : String → Bool
folder path = path == "b.conflict-laptop-20240102-030405.md"

note-Beside :
    (c : Candidate)
    → In c (find_candidates state)
    → folder c.path ≡ true
    → Beside "daily/a.md" c.path
unfolding after_prefix
note-Beside c h is_folder =
    subst (Beside "daily/a.md")
      (sym ((eq_iff c.path "b.conflict-laptop-20240102-030405.md").0 is_folder)) refl

main-Spares_example :
    (main true folder (λ _. true) (λ _. true) false vault state ≡ (vault, none))
    × Spares true folder
        (λ _. true)
        (λ _. true)
        "daily/a.md"
        daily-Kept
        vault
        state
        (main true folder (λ _. true) (λ _. true) true vault state)
main-Spares_example =
    main-Spares true folder (λ _. true) (λ _. true) vault state "daily/a.md" daily-Kept note-Beside
