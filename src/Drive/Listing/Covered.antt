-- ===== src/Drive/Listing/Covered.antt =====
-- The loop over the pages of a folder in src/drive_client.py covers all that they hold.
use obsidian_sync.Base.{
  In, here, there, In-left, In-right, ℕ, zero, suc, String, true, false, ◌≡◌, subst, inl, inr,
  Option, none, some, List, [], ◌∷◌, Bool-cases, Option-cases,
}
use obsidian_sync.Drive.{ListedFile}
use obsidian_sync.Drive.Resolve.{join_path}
use obsidian_sync.Drive.Listing.{
  Item, ItemPage, Walk, is_folder, listed, visit, visit_all, next_of, list_folder,
}
use obsidian_sync.Drive.Listing.Found.{Holds, on_page, on_later, Says, Says-map}

pub record Extends (before after : Walk) : Type 0 where
  pub queue_kept : (e : String × String) → In e before.queue → In e after.queue
  pub result_kept : (file : ListedFile) → In file before.result → In file after.result

-- the item is in the queue or in the result
abbrev pub Covered : String → Item → Walk → Type 0
Covered prefix item w =
    (is_folder item ≡ true → In (item.id, join_path prefix item.name) w.queue)
    × (is_folder item ≡ false → In (listed prefix item) w.result)

visit-Extends : (prefix : String) (item : Item) (w : Walk) → Extends w (visit prefix item w)
unfolding visit
visit-Extends prefix item w = elim (Bool-cases (is_folder item)) [
  | inl yes_folder ↦
      rw yes_folder
        (record { queue_kept = λ e h. In-left e w.queue _ h; result_kept = λ file h. h })
  | inr no_folder ↦
      rw no_folder
        (record { queue_kept = λ e h. h; result_kept = λ file h. In-left file w.result _ h })
]

visit-Covered :
    (prefix : String) (item : Item) (w : Walk) → Covered prefix item (visit prefix item w)
unfolding visit
visit-Covered prefix item w = elim (Bool-cases (is_folder item)) [
  | inl yes_folder ↦
      rw yes_folder (λ _. In-right _ w.queue _ (here []), λ no_folder. absurd (cc no_folder))
  | inr no_folder ↦
      rw no_folder (λ yes_folder. absurd (cc yes_folder), λ _. In-right _ w.result _ (here []))
]

Covered-Extends :
    (prefix : String) (item : Item) (w w' : Walk)
    → Covered prefix item w
    → Extends w w'
    → Covered prefix item w'
Covered-Extends prefix item w w' c e =
    (λ yes_folder. e.queue_kept _ (c.0 yes_folder), λ no_folder. e.result_kept _ (c.1 no_folder))

Extends-trans : (u v w : Walk) → Extends u v → Extends v w → Extends u w
Extends-trans u v w e f = record {
  queue_kept = λ x h. f.queue_kept x (e.queue_kept x h);
  result_kept = λ x h. f.result_kept x (e.result_kept x h);
}

Extends-refl : (w : Walk) → Extends w w
Extends-refl w = record { queue_kept = λ x h. h; result_kept = λ x h. h }

visit_all-Extends :
    (prefix : String) (items : List Item) (w : Walk) → Extends w (visit_all prefix items w)
unfolding visit_all
visit_all-Extends prefix [] w = Extends-refl w
visit_all-Extends prefix (item ∷ items) w =
    Extends-trans w (visit prefix item w) (visit_all prefix items (visit prefix item w))
      (visit-Extends prefix item w) (visit_all-Extends prefix items (visit prefix item w))

visit_all-Covered :
    (prefix : String) (item : Item) (items : List Item) (w : Walk)
    → In item items
    → Covered prefix item (visit_all prefix items w)
unfolding visit_all
visit_all-Covered prefix item _ w (here items) =
    Covered-Extends prefix item (visit prefix item w) (visit_all prefix items (visit prefix item w))
      (visit-Covered prefix item w) (visit_all-Extends prefix items (visit prefix item w))
visit_all-Covered prefix item _ w (there first items h) =
    visit_all-Covered prefix item items (visit prefix first w) h

module _ (list_page : String → Option String → Option ItemPage) (root : String) where
  -- a folder's loop keeps what was there, and covers the items of the pages that are left
  pub record Lists (folder : String) (token : Option String) (prefix : String) (w after : Walk)
      : Type 0 where
    pub extends : Extends w after
    pub covers : (item : Item) → Holds list_page root folder token item → Covered prefix item after

  last_page :
      (folder : String) (token : Option String) (prefix : String) (p : ItemPage) (w : Walk)
      (item : Item)
      → list_page folder token ≡ some p
      → next_of p ≡ none
      → Holds list_page root folder token item
      → Covered prefix item (visit_all prefix p.items w)
  last_page folder _ prefix p w item got last (on_page token q _ got' h) =
      visit_all-Covered prefix item p.items w
        (subst (λ (x : ItemPage). In item x.items) (let e : q ≡ p = cc (got, got') in e) h)
  last_page folder _ prefix p w item got last (on_later token q next _ got' more _) =
      absurd (cc (got, got', last, more))

  middle_page :
      (folder : String) (token : Option String) (prefix next : String) (p : ItemPage)
      (w after : Walk)
      → list_page folder token ≡ some p
      → next_of p ≡ some next
      → Lists folder (some next) prefix (visit_all prefix p.items w) after
      → (item : Item) → Holds list_page root folder token item
      → Covered prefix item after
  middle_page folder _ prefix next p w after got more l item (on_page token q _ got' h) =
      Covered-Extends prefix item (visit_all prefix p.items w) after
        (visit_all-Covered prefix item p.items w
          (subst (λ (x : ItemPage). In item x.items) (let e : q ≡ p = cc (got, got') in e) h))
        l.extends
  middle_page folder _ prefix next p w after got more l item
        (on_later token q other _ got' more' h) =
      l.covers item (
        subst (λ (t : String). Holds list_page root folder (some t) item)
          (cc (got, got', more, more')) h)

  pub list_folder-Lists :
      (fuel : ℕ) (folder : String) (token : Option String) (prefix : String) (w : Walk)
      → Says (Lists folder token prefix w) (list_folder list_page fuel folder token prefix w)
  unfolding list_folder
  list_folder-Lists zero folder token prefix w = tt
  list_folder-Lists (suc fuel) folder token prefix w =
      elim (Option-cases (list_page folder token)) [
        | inl broken ↦ rw (list_folder, broken) tt
        | inr (p, got) ↦ elim (Option-cases (next_of p)) [
          | inl last ↦
              rw (list_folder, got, last)
                (record {
                  extends = visit_all-Extends prefix p.items w;
                  covers = λ item h. last_page folder token prefix p w item got last h;
                })
          | inr (next, more) ↦
              rw (list_folder, got, more)
                (Says-map (Lists folder (some next) prefix (visit_all prefix p.items w))
                  (Lists folder token prefix w)
                  (list_folder list_page fuel folder (some next) prefix
                    (visit_all prefix p.items w))
                  (λ after l. record {
                    extends =
                        Extends-trans w (visit_all prefix p.items w) after
                          (visit_all-Extends prefix p.items w) l.extends;
                    covers =
                        λ item h. middle_page folder token prefix next p w after got more l item h;
                  })
                  (list_folder-Lists fuel folder (some next) prefix (visit_all prefix p.items w)))
        ]
      ]
