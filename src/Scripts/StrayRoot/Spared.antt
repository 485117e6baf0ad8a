-- ===== src/Scripts/StrayRoot/Spared.antt =====
-- scripts/cleanup_stray_root_files.py: what a cleanup leaves alone.
use Prim.Native.String.{◌++◌ as ◌+text◌}
use text.Mathlib.Text.{starts_with}
use text.Mathlib.TextPositions.{starts_with-append}
use obsidian_sync.Base.{
  arith, refuted, String, Bool, true, false, ◌≡◌, refl, ap, subst, ◌∙◌, inl, inr, Option, none,
  some, List, [], ◌∷◌, Dict, lookup, remove, lookup-insert, lookup-remove, Bool-cases, Option-cases,
  eq_iff, ◌==◌, In, here, there,
}
use obsidian_sync.Vault.{Vault}
use obsidian_sync.Scripts.{is_root_path}
use obsidian_sync.Scripts.StrayRoot.{
  Candidate, Cleanup, Clearing, cleared, skipped, crashed, trash_dir, flat, after_prefix,
  move_below, clear_folder, clear_local, forget, clear_all, apply_cleanup, find_candidates, main,
}
use obsidian_sync.Scripts.StrayRoot.Stray.{find_candidates-IsStray}

-- a path in a subfolder that is not the scripts' trash
abbrev pub Kept : String → Type 0
Kept path = (is_root_path path ≡ false) × (starts_with path trash_dir ≡ false)

not_root : (path rel : String) → Kept path → is_root_path rel ≡ true → rel == path ≡ false
not_root path rel k root = elim (Bool-cases (rel == path)) [
  | inr other ↦ other
  | inl same ↦ absurd (cc (ap is_root_path ((eq_iff rel path).0 same), root, k.0))
]

not_trash : (path name : String) → Kept path → (trash_dir +text name) == path ≡ false
not_trash path name k = elim (Bool-cases ((trash_dir +text name) == path)) [
  | inr other ↦ other
  | inl same ↦
      let e : starts_with path trash_dir ≡ true =
        subst (λ p. starts_with p trash_dir ≡ true) ((eq_iff (trash_dir +text name) path).0 same)
          (starts_with-append trash_dir name) in
      absurd (cc (e, k.1))
]

-- a path is not below a folder
abbrev pub Beside : String → String → Type 0
Beside path rel = after_prefix (rel +text "/") path ≡ none

lookup-move_below :
    (path rel : String) (vault : Vault)
    → Kept path
    → Beside path rel
    → lookup path (move_below rel vault) ≡ lookup path vault
unfolding move_below lookup
lookup-move_below path rel [] k beside = refl
lookup-move_below path rel ((p, file) ∷ vault) k beside =
    elim (Option-cases (after_prefix (rel +text "/") p)) [
      | inl kept ↦
          rw (move_below, kept)
            (let rest = lookup-move_below path rel vault k beside in ground arith)
      | inr (below, moved) ↦
          let rest = lookup-move_below path rel vault k beside in
          let here : (trash_dir +text (flat rel +text ("/" +text below))) == path ≡ false =
            not_trash path (flat rel +text ("/" +text below)) k in
          let there : p == path ≡ false =
            refuted (p == path)
              (λ h. cc (ap (after_prefix (rel +text "/")) ((eq_iff p path).0 h), beside, moved)) in
          rw (move_below, moved) (ground (arith, here, there, rest))
    ]

module _ (use_trash : Bool) (is_folder movable unlinkable : String → Bool) (path : String)
    (k : Kept path) where
  Untouched : Vault → Clearing → Type 0
  Untouched vault (cleared after moved) = lookup path after ≡ lookup path vault
  Untouched vault skipped = Unit
  Untouched vault crashed = Unit

  clear_local-Untouched :
      (rel : String) (vault : Vault)
      → is_root_path rel ≡ true
      → (is_folder rel ≡ true → Beside path rel)
      → Untouched vault (clear_local use_trash is_folder movable unlinkable rel vault)
  unfolding clear_local clear_folder Untouched
  clear_local-Untouched rel vault root beside = elim (Option-cases (lookup rel vault)) [
    | inl gone ↦ elim (Bool-cases (is_folder rel)) [
      | inr nothing ↦ rw (clear_local, gone, nothing) refl
      | inl folder ↦ elim (Bool-cases use_trash) [
        | inl trash ↦ elim (Bool-cases (movable rel)) [
          | inl moves ↦
              rw (clear_local, gone, folder, clear_folder, trash, moves)
                (lookup-move_below path rel vault k (beside folder))
          | inr fails ↦ rw (clear_local, gone, folder, clear_folder, trash, fails) tt
        ]
        | inr unlink ↦ rw (clear_local, gone, folder, clear_folder, unlink) tt
      ]
    ]
    | inr (file, there_is) ↦
        let removed : lookup path (remove rel vault) ≡ lookup path vault =
          lookup-remove rel path vault ∙ rw (not_root path rel k root) refl in
        elim (Bool-cases use_trash) [
          | inl trash ↦ elim (Bool-cases (movable rel)) [
            | inl moves ↦
                rw (clear_local, there_is, trash, moves)
                  (lookup-insert (trash_dir +text flat rel) path file (remove rel vault)
                    ∙ rw (not_trash path (flat rel) k) removed)
            | inr fails ↦ rw (clear_local, there_is, trash, fails) tt
          ]
          | inr unlink ↦ elim (Bool-cases (unlinkable rel)) [
            | inl goes ↦ rw (clear_local, there_is, unlink, goes) removed
            | inr fails ↦ rw (clear_local, there_is, unlink, fails) tt
          ]
        ]
  ]

  -- the file and the item of the state are as before
  abbrev pub Spares : Vault → Dict (Option String) → Vault × Option Cleanup → Type 0
  Spares vault files (after, none) = lookup path after ≡ lookup path vault
  Spares vault files (after, some c) =
      (lookup path after ≡ lookup path vault)
      × (lookup path c.vault ≡ lookup path vault)
      × (lookup path c.files ≡ lookup path files)

  Spares-from :
      (vault v : Vault) (files f : Dict (Option String)) (r : Vault × Option Cleanup)
      → lookup path v ≡ lookup path vault
      → lookup path f ≡ lookup path files
      → Spares v f r
      → Spares vault files r
  Spares-from vault v files f (after, none) e e' s = s ∙ e
  Spares-from vault v files f (after, some c) e e' s = (s.0 ∙ e, s.1 ∙ e, s.2 ∙ e')

  after_local :
      (candidate : Candidate) (candidates : List Candidate) (c : Cleanup) (local : Clearing)
      → is_root_path candidate.path ≡ true
      → Untouched c.vault local
      → ((c' : Cleanup)
          → Spares c'.vault c'.files
              (clear_all use_trash is_folder movable unlinkable candidates c'))
      → Spares c.vault c.files (elim local as (λ x. Vault × Option Cleanup) [
        | cleared vault moved ↦
            clear_all use_trash is_folder movable unlinkable candidates
              (forget use_trash is_folder movable unlinkable candidate.path vault moved c)
        | skipped ↦ clear_all use_trash is_folder movable unlinkable candidates c
        | crashed ↦ (c.vault, none)
      ])
  unfolding forget Untouched
  after_local candidate candidates c (cleared vault moved) root same rest =
      Spares-from c.vault vault c.files (remove candidate.path c.files) _ same
        (lookup-remove candidate.path path c.files ∙ rw (not_root path candidate.path k root) refl)
        (rest (forget use_trash is_folder movable unlinkable candidate.path vault moved c))
  after_local candidate candidates c skipped root same rest = rest c
  after_local candidate candidates c crashed root same rest = refl

  clear_all-Spares :
      (candidates : List Candidate) (c : Cleanup)
      → ((candidate : Candidate)
          → In candidate candidates
          → (is_root_path candidate.path ≡ true)
            × (is_folder candidate.path ≡ true → Beside path candidate.path))
      → Spares c.vault c.files (clear_all use_trash is_folder movable unlinkable candidates c)
  unfolding clear_all
  clear_all-Spares [] c roots = (refl, refl, refl)
  clear_all-Spares (candidate ∷ candidates) c roots =
      after_local candidate candidates c
        (clear_local use_trash is_folder movable unlinkable candidate.path c.vault)
        (roots candidate (here candidates)).0
        (clear_local-Untouched candidate.path c.vault (roots candidate (here candidates)).0
          (roots candidate (here candidates)).1)
        (λ c'. clear_all-Spares candidates c' (λ x h. roots x (there candidate candidates h)))

-- A run without `--apply` changes nothing. Any run, also one that crashes, leaves a file in a subfolder
-- alone, and so its item in the state that the script writes, if the file is not in the script's trash
-- and not below a folder that stands at the path of a candidate.
pub main-Spares :
    (use_trash : Bool) (is_folder movable unlinkable : String → Bool) (vault : Vault)
    (files : Dict (Option String)) (path : String) (k : Kept path)
    → ((c : Candidate)
        → In c (find_candidates files)
        → is_folder c.path ≡ true
        → Beside path c.path)
    → (main use_trash is_folder movable unlinkable false vault files ≡ (vault, none))
      × Spares use_trash is_folder movable unlinkable path k vault files
          (main use_trash is_folder movable unlinkable true vault files)
unfolding main apply_cleanup
main-Spares use_trash is_folder movable unlinkable vault files path k beside = (
  refl,
  clear_all-Spares use_trash is_folder movable unlinkable path k (find_candidates files)
      (record { vault = vault; files = files; removed_files = 0; removed_state = 0 })
      (λ c h. ((find_candidates-IsStray files c h).1, beside c h)),
)
