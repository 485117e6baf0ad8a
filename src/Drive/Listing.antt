-- ===== src/Drive/Listing.antt =====
-- src/drive_client.py: `list_all_files`, the breadth-first walk over the folders of the vault.
pub mod Found
pub mod Sound
pub mod Covered
pub mod Complete
pub mod Ends
mod Tests
use obsidian_sync.Base.{
  ℕ, zero, suc, String, Bool, true, false, Option, none, some, List, [], ◌∷◌, ◌++◌, if◌then◌else◌,
  truthy_text, ◌==◌,
}
use obsidian_sync.Drive.{FileMeta, ListedFile}
use obsidian_sync.Drive.Folders.{Caches, mime_folder}
use obsidian_sync.Drive.Resolve.{join_path, register}

-- one entry of a folder
pub record Item : Type 0 where
  pub id : String
  pub name : String
  pub mime_type : Option String
  pub meta : FileMeta

pub record ItemPage : Type 0 where
  pub items : List Item
  pub next_page_token : Option String

-- the queue of folders with the paths of their entries' parents, the result, and the caches
pub record Walk : Type 0 where
  pub queue : List (String × String)
  pub result : List ListedFile
  pub caches : Caches

-- what the walk comes to: an exception of a request, or too little fuel
pub data Walked : Type 0 where
  walked : Walk → Walked
  failed exhausted : Walked

unfoldable pub is_folder : Item → Bool
is_folder item = elim item.mime_type [ none ↦ false | some mime ↦ mime == mime_folder ]

-- the entry of the result
unfoldable pub listed : String → Item → ListedFile
unfolding join_path
listed prefix item = record {
  id = item.id;
  relative_path = some (join_path prefix item.name);
  meta = item.meta;
}

unfoldable pub visit : String → Item → Walk → Walk
unfolding is_folder listed join_path register
visit prefix item w =
    if is_folder item
    then record w {
      queue = w.queue ++ ((item.id, join_path prefix item.name) ∷ []);
      caches = register item.id (join_path prefix item.name) w.caches;
    }
    else record w { result = w.result ++ (listed prefix item ∷ []) }

-- the loop over the items of a page
unfoldable pub visit_all : String → List Item → Walk → Walk
unfolding visit
visit_all prefix [] w = w
visit_all prefix (item ∷ items) w = visit_all prefix items (visit prefix item w)

-- the token of the next page, if it is not empty
unfoldable pub next_of : ItemPage → Option String
next_of p = elim p.next_page_token [
  | none ↦ none
  | some token ↦ if truthy_text token then some token else none
]

-- `list_page` is the answer for a folder and a page token, `none` for an exception.
module _ (list_page : String → Option String → Option ItemPage) where
  -- the loop over the pages of a folder
  unfoldable pub list_folder : ℕ → String → Option String → String → Walk → Walked
  unfolding visit_all next_of
  list_folder zero folder token prefix w = exhausted
  list_folder (suc fuel) folder token prefix w = elim (list_page folder token) [
    | none ↦ failed
    | some p ↦ elim (next_of p) [
      | none ↦ walked (visit_all prefix p.items w)
      | some next ↦ list_folder fuel folder (some next) prefix (visit_all prefix p.items w)
    ]
  ]

  -- The loop over the queue, of which `w.queue` holds no more than the entries below; `pages` is the
  -- fuel for the pages of each folder.
  unfoldable pub walk : ℕ → ℕ → List (String × String) → Walk → Walked
  unfolding list_folder
  walk fuel pages [] w = walked w
  walk zero pages (entry ∷ queue) w = exhausted
  walk (suc fuel) pages ((folder, prefix) ∷ queue) w =
      elim (list_folder pages folder none prefix (record w { queue = queue })) [
        | walked w' ↦ walk fuel pages w'.queue w'
        | failed ↦ failed
        | exhausted ↦ exhausted
      ]

  unfoldable pub list_all_files : ℕ → ℕ → String → Caches → Walked
  unfolding walk
  list_all_files fuel pages root c =
      walk fuel pages ((root, "") ∷ []) (record { queue = []; result = []; caches = c })
