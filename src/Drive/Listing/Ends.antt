-- ===== src/Drive/Listing/Ends.antt =====
-- The walk of src/drive_client.py ends, and then has listed all files, where the folders are a
-- finite tree with finitely many pages.
use obsidian_sync.Base.{
  In, ℕ, zero, suc, ◌+◌, ◌≤◌, ◌<◌, String, ◌≡◌, refl, inl, inr, Option, none, some, List, [], ◌∷◌,
  ◌++◌, if◌then◌else◌, Bool-cases, Option-cases, arith,
}
use obsidian_sync.Drive.{ListedFile}
use obsidian_sync.Drive.Folders.{Caches}
use obsidian_sync.Drive.Resolve.{join_path}
use obsidian_sync.Drive.Listing.{
  Item, ItemPage, Walk, Walked, walked, is_folder, visit, visit_all, next_of, list_folder, walk,
  list_all_files,
}
use obsidian_sync.Drive.Listing.Found.{IsFound}
use obsidian_sync.Drive.Listing.Complete.{list_all_files-Exact}

-- what folders of a page bring, if `left` is a bound for the folders below each
abbrev pub weight : (String → Option String → ℕ) → List Item → ℕ
weight left [] = 0
weight left (item ∷ items) =
    (if is_folder item then suc (left item.id none) else 0) + weight left items

abbrev weigh : (String → Option String → ℕ) → List (String × String) → ℕ
weigh left [] = 0
weigh left ((folder, prefix) ∷ queue) = suc (left folder none) + weigh left queue

weigh-append :
    (left : String → Option String → ℕ) (xs ys : List (String × String))
    → weigh left (xs ++ ys) ≡ weigh left xs + weigh left ys
weigh-append left [] ys = omega arith
weigh-append left ((folder, prefix) ∷ xs) ys = omega (arith, weigh-append left xs ys)

module _ (list_page : String → Option String → Option ItemPage)
    (left turns : String → Option String → ℕ) where
  -- A request succeeds; `left` bounds the folders below a folder from a page on, and `turns` the pages
  -- after it.
  pub record Answers (folder : String) (token : Option String) : Type 0 where
    pub page : ItemPage
    pub got : list_page folder token ≡ some page
    pub enough : weight left page.items ≤ left folder token
    pub later :
        (next : String)
        → next_of page ≡ some next
        → (weight left page.items + left folder (some next) ≤ left folder token)
          × (turns folder (some next) < turns folder token)

  abbrev pub IsTree : Type 0
  IsTree = (folder : String) (token : Option String) → Answers folder token

  weigh-visit :
      (prefix : String) (item : Item) (w : Walk)
      → weigh left (visit prefix item w).queue
        ≡ weigh left w.queue + (if is_folder item then suc (left item.id none) else 0)
  unfolding visit
  weigh-visit prefix item w = elim (Bool-cases (is_folder item)) [
    | inl folder ↦
        rw folder
          (omega (arith, weigh-append left w.queue ((item.id, join_path prefix item.name) ∷ [])))
    | inr file ↦ rw file (omega arith)
  ]

  weigh-visit_all :
      (prefix : String) (items : List Item) (w : Walk)
      → weigh left (visit_all prefix items w).queue ≡ weigh left w.queue + weight left items
  unfolding visit_all
  weigh-visit_all prefix [] w = omega arith
  weigh-visit_all prefix (item ∷ items) w =
      omega (arith, weigh-visit_all prefix items (visit prefix item w), weigh-visit prefix item w)

  abbrev EndsWithin : ℕ → Walked → Type 0
  EndsWithin bound r = (after : Walk) × (r ≡ walked after) × (weigh left after.queue ≤ bound)

  list_folder-ends :
      (fuel : ℕ) (folder : String) (token : Option String) (prefix : String) (w : Walk)
      → IsTree
      → turns folder token < fuel
      → EndsWithin
          (weigh left w.queue + left folder token)
          (list_folder list_page fuel folder token prefix w)
  unfolding list_folder
  list_folder-ends zero folder token prefix w tree enough = absurd (omega arith)
  list_folder-ends (suc fuel) folder token prefix w tree enough =
      let a = tree folder token in
      let after = visit_all prefix a.page.items w in
      elim (Option-cases (next_of a.page)) [
        | inl last ↦ (
          after,
          rw (list_folder, a.got, last) refl,
          omega (arith, weigh-visit_all prefix a.page.items w, a.enough),
        )
        | inr (next, more) ↦
            let bound = a.later next more in
            let (end, e, small) =
              list_folder-ends fuel folder (some next) prefix after tree (omega (arith, bound)) in
            (
              end,
              rw (list_folder, a.got, more) e,
              omega (arith, small, weigh-visit_all prefix a.page.items w, bound),
            )
      ]

  walk-ends :
      (fuel pages : ℕ) (queue : List (String × String)) (w : Walk)
      → IsTree
      → ((folder : String) → turns folder none < pages)
      → weigh left queue ≤ fuel
      → (after : Walk) × (walk list_page fuel pages queue w ≡ walked after)
  unfolding walk
  walk-ends fuel pages [] w tree short enough = (w, refl)
  walk-ends zero pages ((folder, prefix) ∷ queue) w tree short enough = absurd (omega arith)
  walk-ends (suc fuel) pages ((folder, prefix) ∷ queue) w tree short enough =
      let (w', e, small) =
        list_folder-ends pages folder none prefix (record w { queue = queue }) tree
          (short folder) in
      let (after, rest) = walk-ends fuel pages w'.queue w' tree short (omega (arith, small)) in
      (after, rw (walk, e) rest)

  -- Where the folders are a finite tree whose folders have fewer pages than `pages`, and the fuel
  -- exceeds the number of folders below the root, `list_all_files` returns; and its result has the
  -- files of the root and of the folders below it, each with its path, and nothing else.
  pub list_all_files-Lists :
      (fuel pages : ℕ) (root : String) (c : Caches)
      → IsTree
      → ((folder : String) → turns folder none < pages)
      → left root none < fuel
      → (after : Walk) × (list_all_files list_page fuel pages root c ≡ walked after)
        × ((file : ListedFile)
            → (In file after.result → IsFound list_page root file)
              × (IsFound list_page root file → In file after.result))
  unfolding list_all_files
  list_all_files-Lists fuel pages root c tree short enough =
      let (after, e) =
        walk-ends fuel pages ((root, "") ∷ []) (record { queue = []; result = []; caches = c }) tree
          short (omega arith) in
      (after, e, list_all_files-Exact list_page root fuel pages c after e)
