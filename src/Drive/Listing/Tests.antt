-- ===== src/Drive/Listing/Tests.antt =====
-- A vault with a folder and two pages of the root, walked.
use obsidian_sync.Base.{
  In, ℕ, String, ◌≡◌, refl, inl, inr, Option, none, some, List, [], ◌∷◌, if◌then◌else◌, Bool-cases,
  arith, ◌==◌, map, truthy_text,
}
use obsidian_sync.Drive.{FileMeta, ListedFile}
use obsidian_sync.Drive.Folders.{Caches, mime_folder}
use obsidian_sync.Drive.Listing.{
  Item, ItemPage, Walk, Walked, walked, failed, exhausted, is_folder, next_of, list_all_files,
}
use obsidian_sync.Drive.Listing.Found.{IsFound}
use obsidian_sync.Drive.Listing.Ends.{IsTree, list_all_files-Lists}

abbrev no_meta : FileMeta
no_meta = record {
  name = none;
  modified_time = none;
  md5 = none;
  api_modified_time = none;
  api_md5_checksum = none;
  api_size = none;
  api_app_properties = none;
  api_parents = none;
}

abbrev note : String → Item
note name = record { id = name; name = name; mime_type = some "text/markdown"; meta = no_meta }

abbrev daily : Item
daily = record { id = "d"; name = "daily"; mime_type = some mime_folder; meta = no_meta }

abbrev first_page : ItemPage
first_page = record { items = note "a.md" ∷ daily ∷ []; next_page_token = some "2" }

abbrev second_page : ItemPage
second_page = record { items = note "b.md" ∷ []; next_page_token = some "" }

abbrev daily_page : ItemPage
daily_page = record { items = note "c.md" ∷ []; next_page_token = none }

abbrev empty_page : ItemPage
empty_page = record { items = []; next_page_token = none }

abbrev pages_of_root : Option String → ItemPage
pages_of_root none = first_page
pages_of_root (some _) = second_page

abbrev vault : String → Option String → Option ItemPage
vault folder token = some (
    if folder == "r" then pages_of_root token else if folder == "d" then daily_page else empty_page)

abbrev folders_left : String → Option String → ℕ
folders_left folder none = if folder == "r" then 1 else 0
folders_left folder (some _) = 0

abbrev pages_left : String → Option String → ℕ
pages_left folder none = 1
pages_left folder (some _) = 0

vault-IsTree : IsTree vault folders_left pages_left
unfolding is_folder next_of truthy_text
vault-IsTree folder none = elim (Bool-cases (folder == "r")) [
  | inl root ↦ record {
    page = first_page;
    got = rw root;
    enough = rw root (omega arith);
    later = λ next e. (rw root (omega arith), omega arith);
  }
  | inr other ↦ elim (Bool-cases (folder == "d")) [
    | inl inner ↦ record {
      page = daily_page;
      got = rw (other, inner);
      enough = rw other (omega arith);
      later = λ next e. cc e;
    }
    | inr unknown ↦ record {
      page = empty_page;
      got = rw (other, unknown);
      enough = rw other (omega arith);
      later = λ next e. cc e;
    }
  ]
]
vault-IsTree folder (some token) = elim (Bool-cases (folder == "r")) [
  | inl root ↦ record {
    page = second_page;
    got = rw root;
    enough = omega arith;
    later = λ next e. cc e;
  }
  | inr other ↦ elim (Bool-cases (folder == "d")) [
    | inl inner ↦ record {
      page = daily_page;
      got = rw (other, inner);
      enough = omega arith;
      later = λ next e. cc e;
    }
    | inr unknown ↦ record {
      page = empty_page;
      got = rw (other, unknown);
      enough = omega arith;
      later = λ next e. cc e;
    }
  ]
]

abbrev no_caches : Caches
no_caches = record {
  folder_cache = [];
  folder_id_to_rel = [];
  vault_folder_ids = [];
  non_vault_ids = [];
  tombstones_folder_id = none;
}

abbrev paths : Walked → List (Option String)
paths (walked w) = map (λ f. f.relative_path) w.result
paths failed = []
paths exhausted = []

vault_paths :
    paths (list_all_files vault 3 2 "r" no_caches)
    ≡ some "a.md" ∷ some "b.md" ∷ some "daily/c.md" ∷ []
unfolding list_all_files truthy_text
vault_paths = refl

list_all_files-Lists_example :
    (after : Walk) × (list_all_files vault 3 2 "r" no_caches ≡ walked after)
    × ((file : ListedFile)
        → (In file after.result → IsFound vault "r" file)
          × (IsFound vault "r" file → In file after.result))
list_all_files-Lists_example =
    list_all_files-Lists vault folders_left pages_left 3 2 "r" no_caches vault-IsTree
      (λ folder. omega arith) (omega arith)
