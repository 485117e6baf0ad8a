-- ===== src/Drive/Paging/Resume.antt =====
-- The pages that a limited call leaves are those that the next call returns.
use obsidian_sync.Base.{
  ℕ, zero, suc, ◌+◌, String, true, false, ◌≡◌, ◌⊎◌, refl, sym, subst, ap, ◌∙◌, inl, inr, Option,
  none, some, List, [], ◌++◌, append_assoc, truthy_text, Option-cases, arith,
}
use obsidian_sync.Drive.{Change}
use obsidian_sync.Drive.Folders.{ApiChange}
use obsidian_sync.Drive.Paging.{
  Page, PageStep, finished, limited, onward, tokenless, at_limit, page_step, Got, got, raised,
  exhausted, normalize_all, after_page, pages_from, get_changes,
}

-- the step goes on to the page of this token, unless it is limited
abbrev pub IsFollowed : PageStep → String → Type 0
IsFollowed step token = (step ≡ limited token) ⊎ (step ≡ onward token)

step-unlimited :
    (k : Option ℕ) (pages pages' : ℕ) (p : Page) (token : String)
    → IsFollowed (page_step k pages p) token
    → page_step none pages' p ≡ onward token
unfolding page_step at_limit
step-unlimited k pages pages' p token (inl h) = ground (arith, h)
step-unlimited k pages pages' p token (inr h) = ground (arith, h)

module _ (S : Type 0) (list_page : String → Option Page)
    (normalize : ApiChange → S → S × Option Change) where
  -- a run without a limit, from a token and with a state, that adds these changes
  abbrev pub Adds : String → S → List Change → S → Type 0
  Adds token s ys s'' =
      (fuel : ℕ) × ((pages : ℕ) (new_token : String) (acc : List Change)
        → (last : String) × (pages_from list_page normalize none fuel pages new_token token s acc
            ≡ got s'' (acc ++ ys) last false))

  -- a page before such a run
  one_more :
      (k : Option ℕ) (pages : ℕ) (p : Page) (token current : String) (s s'' : S) (ys : List Change)
      → list_page current ≡ some p
      → IsFollowed (page_step k pages p) token
      → Adds token (normalize_all list_page normalize p.changes s).0 ys s''
      → Adds current s ((normalize_all list_page normalize p.changes s).1 ++ ys) s''
  unfolding pages_from after_page
  one_more k pages p token current s s'' ys there followed (fuel, run) =
      let news = (normalize_all list_page normalize p.changes s).1 in
      (
        suc fuel,
        λ pages' new_token acc.
            let later = run (pages' + 1) new_token (acc ++ news) in
            (
              later.0,
              rw (pages_from, there, step-unlimited k pages (pages' + 1) p token followed)
                  (later.1 ∙ ap (λ l. got s'' l later.0 false) (append_assoc acc news ys)),
            ),
      )

  failed_page :
      (k : Option ℕ) (fuel pages : ℕ) (new_token current : String) (s : S) (acc : List Change)
      → list_page current ≡ none
      → pages_from list_page normalize k (suc fuel) pages new_token current s acc ≡ raised
  unfolding pages_from
  failed_page k fuel pages new_token current s acc h = rw (pages_from, h) refl

  opened_page :
      (k : Option ℕ) (fuel pages : ℕ) (new_token current : String) (s : S) (acc : List Change)
      (p : Page)
      → list_page current ≡ some p
      → pages_from list_page normalize k (suc fuel) pages new_token current s acc
        ≡ after_page list_page normalize
            (pages_from list_page normalize k fuel (pages + 1) new_token)
            new_token
            (normalize_all list_page normalize p.changes s).0
            (acc ++ (normalize_all list_page normalize p.changes s).1)
            (page_step k (pages + 1) p)
  unfolding pages_from
  opened_page k fuel pages new_token current s acc p h = rw (pages_from, h) refl

  -- the changes `xs` are those of `acc` and further ones, which a run without limit finds
  abbrev Continues : String → S → List Change → List Change → List Change → S → Type 0
  Continues current s acc xs ys s'' =
      (zs : List Change) × (xs ≡ acc ++ zs) × Adds current s (zs ++ ys) s''

  abbrev state_of : S → Got S → S
  state_of s (got s' xs token more) = s'
  state_of s raised = s
  state_of s exhausted = s

  abbrev changes_of : Got S → List Change
  changes_of (got s' xs token more) = xs
  changes_of raised = []
  changes_of exhausted = []

  abbrev token_of : Got S → String
  token_of (got s' xs token more) = token
  token_of raised = ""
  token_of exhausted = ""

  step-Continues :
      (m fuel pages : ℕ) (new_token current : String) (s s' s'' : S) (acc xs ys : List Change)
      (token : String) (p : Page)
      → list_page current ≡ some p
      → Adds token s' ys s''
      → (step : PageStep) → page_step (some m) (pages + 1) p ≡ step
      → after_page list_page normalize
          (pages_from list_page normalize (some m) fuel (pages + 1) new_token)
          new_token
          (normalize_all list_page normalize p.changes s).0
          (acc ++ (normalize_all list_page normalize p.changes s).1)
          step
        ≡ got s' xs token true
      → ((t : String) (s1 : S) (acc1 : List Change)
          → pages_from list_page normalize (some m) fuel (pages + 1) new_token t s1 acc1
            ≡ got s' xs token true
          → Continues t s1 acc1 xs ys s'')
      → Continues current s acc xs ys s''
  unfolding after_page
  step-Continues m fuel pages new_token current s s' s'' acc xs ys token p there rest (finished t) e
        h later =
      absurd (cc h)
  step-Continues m fuel pages new_token current s s' s'' acc xs ys token p there rest tokenless e h
        later =
      absurd (cc h)
  step-Continues m fuel pages new_token current s s' s'' acc xs ys token p there rest (limited t) e
        h later =
      let s1 = (normalize_all list_page normalize p.changes s).0 in
      let here : Adds t s1 ys s'' =
        subst (λ r. Adds r s1 ys s'') (sym (ap token_of h))
          (subst (λ r. Adds token r ys s'') (sym (ap (state_of s) h)) rest) in
      (
        (normalize_all list_page normalize p.changes s).1,
        sym (ap changes_of h),
        one_more (some m) (pages + 1) p t current s s'' ys there (inl e) here,
      )
  step-Continues m fuel pages new_token current s s' s'' acc xs ys token p there rest (onward t) e h
        later =
      let news = (normalize_all list_page normalize p.changes s).1 in
      let r = later t (normalize_all list_page normalize p.changes s).0 (acc ++ news) h in
      (
        news ++ r.0,
        r.1 ∙ append_assoc acc news r.0,
        subst (λ l. Adds current s l s'') (sym (append_assoc news r.0 ys))
            (one_more (some m) (pages + 1) p t current s s'' (r.0 ++ ys) there (inr e) r.2),
      )

  started :
      (k : Option ℕ) (fuel : ℕ) (page_token : String) (s : S)
      → truthy_text page_token ≡ true
      → get_changes list_page normalize k fuel page_token s
        ≡ pages_from list_page normalize k fuel 0 page_token page_token s []
  unfolding get_changes
  started k fuel page_token s usable = rw usable refl

  -- a limited run that stops at a limit, and a run without limit from there, make one run
  pages_from-Continues :
      (m fuel pages : ℕ) (new_token current : String) (s s' s'' : S) (acc xs ys : List Change)
      (token : String)
      → pages_from list_page normalize (some m) fuel pages new_token current s acc
        ≡ got s' xs token true
      → Adds token s' ys s''
      → Continues current s acc xs ys s''
  unfolding pages_from
  pages_from-Continues m zero pages new_token current s s' s'' acc xs ys token h rest =
      absurd (cc h)
  pages_from-Continues m (suc fuel) pages new_token current s s' s'' acc xs ys token h rest =
      elim (Option-cases (list_page current)) [
        | inl failed ↦
            let e = failed_page (some m) fuel pages new_token current s acc failed in
            absurd (cc (e, h))
        | inr (p, there) ↦
            step-Continues m fuel pages new_token current s s' s'' acc xs ys token p there rest
              (page_step (some m) (pages + 1) p) refl
              (sym (opened_page (some m) fuel pages new_token current s acc p there) ∙ h)
              (λ t s1 acc1 k.
                pages_from-Continues m fuel (pages + 1) new_token t s1 s' s'' acc1 xs ys token k
                  rest)
      ]

  -- If a call with a limit of pages, from a token that is not empty, stops at the limit, then a call without limit finds the changes
  -- that it returned followed by those that a call without limit finds from its new token and with its
  -- caches.
  pub get_changes-Resumes :
      (m fuel : ℕ) (page_token token : String) (s s' s'' : S) (xs ys : List Change)
      → truthy_text page_token ≡ true
      → get_changes list_page normalize (some m) fuel page_token s ≡ got s' xs token true
      → Adds token s' ys s''
      → (all : ℕ) × (last : String) × (get_changes list_page normalize none all page_token s
          ≡ got s'' (xs ++ ys) last false)
  unfolding get_changes
  get_changes-Resumes m fuel page_token token s s' s'' xs ys usable h rest =
      let r =
        pages_from-Continues m fuel 0 page_token page_token s s' s'' [] xs ys token
          (sym (started (some m) fuel page_token s usable) ∙ h) rest in
      let run = r.2.1 0 page_token [] in
      (
        r.2.0,
        run.0,
        started none r.2.0 page_token s usable
            ∙ run.1
            ∙ ap (λ l. got s'' (l ++ ys) run.0 false) (sym r.1),
      )
