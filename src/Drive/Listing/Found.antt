-- ===== src/Drive/Listing/Found.antt =====
-- What `list_all_files` (src/drive_client.py) is to find: the files of all folders below the root.
use obsidian_sync.Base.{In, String, true, false, ◌≡◌, Option, none, some}
use obsidian_sync.Drive.{ListedFile}
use obsidian_sync.Drive.Resolve.{join_path}
use obsidian_sync.Drive.Listing.{
  Item, ItemPage, Walk, Walked, walked, failed, exhausted, is_folder, listed, next_of,
}

module _ (list_page : String → Option String → Option ItemPage) (root : String) where
  -- the pages of a folder, from a page token on, hold the item
  pub data Holds (folder : String) : Option String → Item → Type 0 where
    on_page :
        (token : Option String) (p : ItemPage) (item : Item)
        → list_page folder token ≡ some p
        → In item p.items
        → Holds folder token item
    on_later :
        (token : Option String) (p : ItemPage) (next : String) (item : Item)
        → list_page folder token ≡ some p
        → next_of p ≡ some next
        → Holds folder (some next) item
        → Holds folder token item

  -- the folder stands below the root, at this path
  pub data Reaches : String → String → Type 0 where
    at_root : Reaches root ""
    below :
        (folder prefix : String) (item : Item)
        → Reaches folder prefix
        → Holds folder none item
        → is_folder item ≡ true
        → Reaches item.id (join_path prefix item.name)

  -- a file of the result: a file of a folder below the root, with its path
  abbrev pub IsFound : ListedFile → Type 0
  IsFound file =
      (folder : String) × (prefix : String) × (item : Item) × Reaches folder prefix
      × Holds folder none item
      × (is_folder item ≡ false)
      × (file ≡ listed prefix item)

abbrev pub Says : (Walk → Type 0) → Walked → Type 0
Says P (walked w) = P w
Says P failed = Unit
Says P exhausted = Unit

-- the walk goes on after a folder
pub goes_on :
    (Q P : Walk → Type 0) (r : Walked) (k : Walk → Walked)
    → Says Q r
    → ((w : Walk) → Q w → Says P (k w))
    → Says P (elim r as (λ x. Walked) [ walked w ↦ k w | failed ↦ failed | exhausted ↦ exhausted ])
goes_on Q P (walked w) k q next = next w q
goes_on Q P failed k q next = tt
goes_on Q P exhausted k q next = tt

pub Says-map : (Q P : Walk → Type 0) (r : Walked) → ((w : Walk) → Q w → P w) → Says Q r → Says P r
Says-map Q P (walked w) f q = f w q
Says-map Q P failed f q = tt
Says-map Q P exhausted f q = tt
