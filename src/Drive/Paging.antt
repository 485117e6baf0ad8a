-- ===== src/Drive/Paging.antt =====
-- src/drive_client.py: `get_changes`, page by page. The caches of the client are the state `S` of
-- `_normalize_change`, which is `normalize` here.
pub mod Resume
pub mod Limit
mod Tests
use obsidian_sync.Base.{
  ℕ, zero, suc, ◌+◌, String, Bool, true, false, Option, none, some, List, [], ◌∷◌, ◌++◌, leb,
  if◌then◌else◌, truthy_text,
}
use obsidian_sync.Drive.{Change}
use obsidian_sync.Drive.Folders.{ApiChange}

-- a response of the Changes API
pub record Page : Type 0 where
  pub changes : List ApiChange
  pub new_start_page_token : Option String
  pub next_page_token : Option String

-- what the loop does after a page
pub data PageStep : Type 0 where
  finished limited onward : String → PageStep
  -- neither token is there
  tokenless : PageStep

-- `max_pages is not None and pages >= max_pages`
unfoldable pub at_limit : Option ℕ → ℕ → Bool
at_limit none pages = false
at_limit (some max_pages) pages = leb max_pages pages

unfoldable pub page_step : Option ℕ → ℕ → Page → PageStep
unfolding at_limit
page_step max_pages pages p = elim p.new_start_page_token [
  | some token ↦ finished token
  | none ↦ elim p.next_page_token [
    | none ↦ tokenless
    | some token ↦
        if truthy_text token
        then (if at_limit max_pages pages then limited token else onward token)
        else tokenless
  ]
]

-- What `get_changes` returns, that a request raised, or that the fuel was too little.
pub data Got (S : Type 0) : Type 0 where
  got : S → List Change → String → Bool → Got S
  raised : Got S
  exhausted : Got S

module _ {S : Type 0} (list_page : String → Option Page)
    (normalize : ApiChange → S → S × Option Change) where
  -- the loop over the changes of a page
  unfoldable pub normalize_all : List ApiChange → S → S × List Change
  normalize_all [] s = (s, [])
  normalize_all (change ∷ changes) s =
      let (s', kept) = normalize change s in
      let (s'', rest) = normalize_all changes s' in
      (s'', elim kept [ none ↦ rest | some c ↦ c ∷ rest ])

  -- what the loop does with the changes so far; `rest` is the loop from the next page
  unfoldable pub after_page :
      (String → S → List Change → Got S) → String → S → List Change → PageStep → Got S
  after_page rest new_token s all_changes (finished token) = got s all_changes token false
  after_page rest new_token s all_changes tokenless = got s all_changes new_token false
  after_page rest new_token s all_changes (limited token) = got s all_changes token true
  after_page rest new_token s all_changes (onward token) = rest token s all_changes

  -- the loop over the pages, from a token that is not empty
  unfoldable pub pages_from : Option ℕ → ℕ → ℕ → String → String → S → List Change → Got S
  unfolding after_page
  pages_from max_pages zero pages new_token current s all_changes = exhausted
  pages_from max_pages (suc fuel) pages new_token current s all_changes = elim (list_page current) [
    | none ↦ raised
    | some p ↦
        after_page (pages_from max_pages fuel (pages + 1) new_token) new_token
          (normalize_all p.changes s).0 (all_changes ++ (normalize_all p.changes s).1)
          (page_step max_pages (pages + 1) p)
  ]

  unfoldable pub get_changes : Option ℕ → ℕ → String → S → Got S
  unfolding pages_from
  get_changes max_pages fuel page_token s =
      if truthy_text page_token
      then pages_from max_pages fuel 0 page_token page_token s []
      else got s [] page_token false
