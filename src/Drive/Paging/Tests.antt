-- ===== src/Drive/Paging/Tests.antt =====
-- Two pages of changes, of which a limited call returns the first.
use obsidian_sync.Base.{
  ℕ, suc, String, false, true, ◌≡◌, refl, Option, none, some, [], ◌∷◌, ◌==◌, if◌then◌else◌,
  truthy_text,
}
use obsidian_sync.Drive.{Change}
use obsidian_sync.Drive.Folders.{ApiChange}
use obsidian_sync.Drive.Paging.{
  Page, got, get_changes, pages_from, page_step, at_limit, after_page, normalize_all,
}
use obsidian_sync.Drive.Paging.Resume.{Adds, get_changes-Resumes}

abbrev change_of : String → Change
change_of id = record {
  file_id = id;
  removed = true;
  file = none;
  app_properties = none;
  parents = none;
}

abbrev normalize : ApiChange → ℕ → ℕ × Option Change
normalize change n = (suc n, some (change_of change.file_id))

abbrev page_of : String → Option String → Option String → Page
page_of id start following = record {
  changes = record { file_id = id; removed = true; file = none } ∷ [];
  new_start_page_token = start;
  next_page_token = following;
}

abbrev list_page : String → Option Page
list_page token =
    if token == "1" then some (page_of "a" none (some "2")) else some (page_of "b" (some "3") none)

second_page : Adds ℕ list_page normalize "2" 1 (change_of "b" ∷ []) 2
unfolding pages_from page_step at_limit after_page normalize_all
second_page = (1, λ pages new_token acc. ("3", refl))

get_changes-Resumes_example :
    (all : ℕ) × (last : String) × (get_changes list_page normalize none all "1" 0
      ≡ got 2 (change_of "a" ∷ change_of "b" ∷ []) last false)
unfolding get_changes pages_from page_step at_limit after_page normalize_all truthy_text
get_changes-Resumes_example =
    get_changes-Resumes ℕ list_page normalize 1 1 "1" "2" 0 1 2 (change_of "a" ∷ [])
      (change_of "b" ∷ []) refl refl second_page
