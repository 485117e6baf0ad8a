-- ===== src/Drive/Paging/Limit.antt =====
-- A limited call of `get_changes` ends within its limit.
use obsidian_sync.Base.{
  ℕ, zero, suc, ◌+◌, ◌≤◌, ◌<◌, String, ◌≡◌, ◌≢◌, refl, inl, inr, Option, some, List, [],
  truthy_text, Option-cases, Bool-cases, arith,
}
use obsidian_sync.Drive.{Change}
use obsidian_sync.Drive.Folders.{ApiChange}
use obsidian_sync.Drive.Paging.{
  Page, PageStep, finished, limited, onward, tokenless, at_limit, page_step, exhausted, after_page,
  pages_from, get_changes,
}

-- a limit that is reached after `m` pages
step-limited :
    (m pages : ℕ) (p : Page) (token : String)
    → page_step (some m) pages p ≡ onward token
    → pages < m
unfolding page_step at_limit
step-limited m pages p token h = ground (arith, h)

module _ (S : Type 0) (list_page : String → Option Page)
    (normalize : ApiChange → S → S × Option Change) where
  pages_from-ends :
      (m fuel pages : ℕ) (new_token current : String) (s : S) (acc : List Change)
      → m ≤ pages + fuel
      → pages < m
      → pages_from list_page normalize (some m) fuel pages new_token current s acc ≢ exhausted
  unfolding pages_from
  pages_from-ends m zero pages new_token current s acc low high = absurd (omega arith)
  pages_from-ends m (suc fuel) pages new_token current s acc low high =
      elim (Option-cases (list_page current)) [
        | inl failed ↦ rw (pages_from, failed) (λ e. cc e)
        | inr (p, there) ↦
            rw (pages_from, there)
              (go _ _ (page_step (some m) (pages + 1) p)
                (λ token h. step-limited m (pages + 1) p token h)
                (λ token s' acc' more.
                  pages_from-ends m fuel (pages + 1) new_token token s' acc' (omega arith) more))
      ]
    where
      go :
          (s' : S) (acc' : List Change) (step : PageStep)
          → ((token : String) → step ≡ onward token → pages + 1 < m)
          → ((token : String) (s' : S) (acc' : List Change)
              → pages + 1 < m
              → pages_from list_page normalize (some m) fuel (pages + 1) new_token token s' acc'
                ≢ exhausted)
          → after_page list_page normalize
              (pages_from list_page normalize (some m) fuel (pages + 1) new_token)
              new_token
              s'
              acc'
              step
            ≢ exhausted
      go s' acc' (finished token) below later e = cc e
      go s' acc' tokenless below later e = cc e
      go s' acc' (limited token) below later e = cc e
      go s' acc' (onward token) below later e = later token s' acc' (below token refl) e

  -- A call with a limit of at least one page asks for no more pages than the limit: as much fuel is
  -- enough.
  pub get_changes-ends :
      (m : ℕ) (page_token : String) (s : S)
      → 1 ≤ m
      → get_changes list_page normalize (some m) m page_token s ≢ exhausted
  unfolding get_changes
  get_changes-ends m page_token s positive = elim (Bool-cases (truthy_text page_token)) [
    | inl usable ↦
        rw usable (pages_from-ends m m 0 page_token page_token s [] (omega arith) positive)
    | inr blank ↦ rw blank (λ e. cc e)
  ]
