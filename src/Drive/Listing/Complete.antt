-- ===== src/Drive/Listing/Complete.antt =====
-- The walk of src/drive_client.py lists all files of the folders below the root.
use obsidian_sync.Base.{
  In, here, In-split, In-one, In-nil, ℕ, zero, suc, String, true, false, ◌≡◌, sym, subst, inl, inr,
  Option, none, List, [], ◌∷◌,
}
use obsidian_sync.Drive.{ListedFile}
use obsidian_sync.Drive.Folders.{Caches}
use obsidian_sync.Drive.Resolve.{join_path}
use obsidian_sync.Drive.Listing.{
  Item, ItemPage, Walk, walked, is_folder, listed, list_folder, walk, list_all_files,
}
use obsidian_sync.Drive.Listing.Covered.{Lists, list_folder-Lists}
use obsidian_sync.Drive.Listing.Sound.{FoundOnly, walk-FoundOnly}
use obsidian_sync.Drive.Listing.Found.{
  Holds, Reaches, below, at_root, IsFound, Says, goes_on, Says-map,
}

module _ (list_page : String → Option String → Option ItemPage) (root : String) where
  -- `to` at `path` is the folder `from` at `prefix`, or a folder below it
  data Descends : String → String → String → String → Type 0 where
    itself : (folder prefix : String) → Descends folder prefix folder prefix
    through :
        (folder prefix to path : String) (item : Item)
        → Holds list_page root folder none item
        → is_folder item ≡ true
        → Descends item.id (join_path prefix item.name) to path
        → Descends folder prefix to path

  Descends-snoc :
      (folder prefix to path : String) (item : Item)
      → Descends folder prefix to path
      → Holds list_page root to none item
      → is_folder item ≡ true
      → Descends folder prefix item.id (join_path path item.name)
  Descends-snoc _ _ _ _ item (itself folder prefix) held yes_folder =
      through folder prefix item.id (join_path prefix item.name) item held yes_folder
        (itself item.id (join_path prefix item.name))
  Descends-snoc _ _ _ _ item (through folder prefix to path i h d rest) held yes_folder =
      through folder prefix item.id (join_path path item.name) i h d
        (Descends-snoc i.id (join_path prefix i.name) to path item rest held yes_folder)

  Reaches-Descends :
      (folder prefix : String)
      → Reaches list_page root folder prefix
      → Descends root "" folder prefix
  Reaches-Descends _ _ at_root = itself root ""
  Reaches-Descends _ _ (below folder prefix item r held yes_folder) =
      Descends-snoc root "" folder prefix item (Reaches-Descends folder prefix r) held yes_folder

  -- what the walk keeps, and finds below the folders of its queue
  record Finds (queue : List (String × String)) (w after : Walk) : Type 0 where
    kept : (file : ListedFile) → In file w.result → In file after.result
    lists :
        (folder prefix to path : String) (item : Item)
        → In (folder, prefix) queue
        → Descends folder prefix to path
        → Holds list_page root to none item
        → is_folder item ≡ false
        → In (listed path item) after.result

  below_folder :
      (folder prefix to path : String) (item : Item) (w w' after : Walk)
      → Lists list_page root folder none prefix w w'
      → Finds w'.queue w' after
      → Descends folder prefix to path
      → Holds list_page root to none item
      → is_folder item ≡ false
      → In (listed path item) after.result
  below_folder folder prefix _ _ item w w' after l f (itself _ _) held file =
      f.kept (listed prefix item) ((l.covers item held).1 file)
  below_folder folder prefix _ _ item w w' after l f (through _ _ to path i held_i folder_i rest)
        held file =
      f.lists i.id (join_path prefix i.name) to path item ((l.covers i held_i).0 folder_i) rest held
        file

  queued_file :
      (folder prefix f p to path : String) (item : Item) (queue : List (String × String))
      (w w' after : Walk)
      → In (f, p) ((folder, prefix) ∷ queue)
      → Lists list_page root folder none prefix (record w { queue = queue }) w'
      → Finds w'.queue w' after
      → Descends f p to path
      → Holds list_page root to none item
      → is_folder item ≡ false
      → In (listed path item) after.result
  queued_file folder prefix f p to path item queue w w' after h l found d held file =
      elim (In-split (f, p) ((folder, prefix) ∷ []) queue h) [
        | inl first ↦
            let e = In-one (f, p) (folder, prefix) first in
            below_folder folder prefix to path item (record w { queue = queue }) w' after l found
              (subst (λ (x : String × String). Descends x.0 x.1 to path) e d) held file
        | inr later ↦ found.lists f p to path item (l.extends.queue_kept (f, p) later) d held file
      ]

  walk-Finds :
      (fuel pages : ℕ) (queue : List (String × String)) (w : Walk)
      → Says (Finds queue w) (walk list_page fuel pages queue w)
  unfolding walk
  walk-Finds fuel pages [] w = record {
    kept = λ file h. h;
    lists = λ f p to path item h d held file. absurd (In-nil (f, p) h);
  }
  walk-Finds zero pages (entry ∷ queue) w = tt
  walk-Finds (suc fuel) pages ((folder, prefix) ∷ queue) w =
      goes_on (Lists list_page root folder none prefix (record w { queue = queue }))
        (Finds ((folder, prefix) ∷ queue) w)
        (list_folder list_page pages folder none prefix (record w { queue = queue }))
        (λ w'. walk list_page fuel pages w'.queue w')
        (list_folder-Lists list_page root pages folder none prefix (record w { queue = queue }))
        (λ w' l.
          Says-map (Finds w'.queue w') (Finds ((folder, prefix) ∷ queue) w)
            (walk list_page fuel pages w'.queue w')
            (λ after found. record {
              kept = λ file h. found.kept file (l.extends.result_kept file h);
              lists = λ f p to path item h d held file.
                  queued_file folder prefix f p to path item queue w w' after h l found d held file;
            })
            (walk-Finds fuel pages w'.queue w'))

  -- If no request fails and the fuel lasts, `list_all_files` lists the files of the root and of the
  -- folders below it, each with its path, and nothing else: whatever the pages are.
  pub list_all_files-Exact :
      (fuel pages : ℕ) (c : Caches) (after : Walk)
      → list_all_files list_page fuel pages root c ≡ walked after
      → (file : ListedFile)
      → (In file after.result → IsFound list_page root file)
        × (IsFound list_page root file → In file after.result)
  unfolding list_all_files
  list_all_files-Exact fuel pages c after run file =
      let start : Walk = record { queue = []; result = []; caches = c } in
      let sound : Says (FoundOnly list_page root) (walked after) =
        subst (Says (FoundOnly list_page root)) run (
          walk-FoundOnly list_page root fuel pages ((root, "") ∷ []) start
            (λ f p h.
              subst (λ (x : String × String). Reaches list_page root x.0 x.1)
                (sym (In-one (f, p) (root, "") h)) at_root)
            (λ g h. absurd (In-nil g h))) in
      let complete : Says (Finds ((root, "") ∷ []) start) (walked after) =
        subst (Says (Finds ((root, "") ∷ []) start)) run
          (walk-Finds fuel pages ((root, "") ∷ []) start) in
      (
        sound file,
        λ (folder, prefix, item, reached, held, no_folder, e).
            subst (λ (g : ListedFile). In g after.result) (sym e)
              (complete.lists root "" folder prefix item (here [])
                (Reaches-Descends folder prefix reached) held no_folder),
      )
