-- ===== src/Drive/Listing/Sound.antt =====
-- The walk of src/drive_client.py lists nothing but the files of the folders below the root.
use obsidian_sync.Base.{
  In, here, there, In-split, In-one, ℕ, zero, suc, String, sym, subst, inl, inr, Option, none, some,
  List, [], ◌∷◌, Bool-cases, Option-cases,
}
use obsidian_sync.Drive.{ListedFile}
use obsidian_sync.Drive.Resolve.{join_path}
use obsidian_sync.Drive.Listing.{
  Item, ItemPage, Walk, is_folder, listed, visit, visit_all, next_of, list_folder, walk,
}
use obsidian_sync.Drive.Listing.Found.{
  Holds, on_page, on_later, Reaches, below, IsFound, Says, goes_on,
}

module _ (list_page : String → Option String → Option ItemPage) (root : String) where
  record IsSound (w : Walk) : Type 0 where
    queued :
        (folder prefix : String)
        → In (folder, prefix) w.queue
        → Reaches list_page root folder prefix
    found : (file : ListedFile) → In file w.result → IsFound list_page root file

  visit-IsSound :
      (folder prefix : String) (item : Item) (w : Walk)
      → Reaches list_page root folder prefix
      → Holds list_page root folder none item
      → IsSound w
      → IsSound (visit prefix item w)
  unfolding visit
  visit-IsSound folder prefix item w reached held s = elim (Bool-cases (is_folder item)) [
    | inl yes_folder ↦ rw yes_folder (record {
      queued = λ f p h.
          elim (In-split (f, p) w.queue ((item.id, join_path prefix item.name) ∷ []) h) [
            | inl old ↦ s.queued f p old
            | inr added ↦
                subst (λ e. Reaches list_page root e.0 e.1) (sym (In-one (f, p) _ added))
                  (below folder prefix item reached held yes_folder)
          ];
      found = s.found;
    })
    | inr no_folder ↦ rw no_folder (record {
      queued = s.queued;
      found = λ file h. elim (In-split file w.result (listed prefix item ∷ []) h) [
        | inl old ↦ s.found file old
        | inr added ↦ (folder, prefix, item, reached, held, no_folder, In-one file _ added)
      ];
    })
  ]

  visit_all-IsSound :
      (folder prefix : String) (items : List Item) (w : Walk)
      → Reaches list_page root folder prefix
      → ((item : Item) → In item items → Holds list_page root folder none item)
      → IsSound w
      → IsSound (visit_all prefix items w)
  unfolding visit_all
  visit_all-IsSound folder prefix [] w reached held s = s
  visit_all-IsSound folder prefix (item ∷ items) w reached held s =
      visit_all-IsSound folder prefix items (visit prefix item w) reached
        (λ i h. held i (there item items h))
        (visit-IsSound folder prefix item w reached (held item (here items)) s)

  list_folder-IsSound :
      (fuel : ℕ) (folder : String) (token : Option String) (prefix : String) (w : Walk)
      → Reaches list_page root folder prefix
      → ((item : Item)
          → Holds list_page root folder token item
          → Holds list_page root folder none item)
      → IsSound w
      → Says IsSound (list_folder list_page fuel folder token prefix w)
  unfolding list_folder
  list_folder-IsSound zero folder token prefix w reached held s = tt
  list_folder-IsSound (suc fuel) folder token prefix w reached held s =
      elim (Option-cases (list_page folder token)) [
        | inl broken ↦ rw (list_folder, broken) tt
        | inr (p, got) ↦
            let done =
              visit_all-IsSound folder prefix p.items w reached
                (λ item h. held item (on_page token p item got h)) s in
            elim (Option-cases (next_of p)) [
              | inl last ↦ rw (list_folder, got, last) done
              | inr (next, more) ↦
                  rw (list_folder, got, more)
                    (list_folder-IsSound fuel folder (some next) prefix (visit_all prefix p.items w)
                      reached (λ item h. held item (on_later token p next item got more h)) done)
            ]
      ]

  abbrev pub FoundOnly : Walk → Type 0
  FoundOnly w = (file : ListedFile) → In file w.result → IsFound list_page root file

  pub walk-FoundOnly :
      (fuel pages : ℕ) (queue : List (String × String)) (w : Walk)
      → ((folder prefix : String)
          → In (folder, prefix) queue
          → Reaches list_page root folder prefix)
      → FoundOnly w
      → Says FoundOnly (walk list_page fuel pages queue w)
  unfolding walk
  walk-FoundOnly fuel pages [] w reached found = found
  walk-FoundOnly zero pages (entry ∷ queue) w reached found = tt
  walk-FoundOnly (suc fuel) pages ((folder, prefix) ∷ queue) w reached found =
      goes_on IsSound FoundOnly
        (list_folder list_page pages folder none prefix (record w { queue = queue }))
        (λ w'. walk list_page fuel pages w'.queue w')
        (list_folder-IsSound pages folder none prefix (record w { queue = queue })
          (reached folder prefix (here queue)) (λ item h. h)
          (record {
            queued = λ f p h. reached f p (there (folder, prefix) queue h);
            found = found;
          }))
        (λ w' s. walk-FoundOnly fuel pages w'.queue w' s.queued s.found)
