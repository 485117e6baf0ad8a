-- ===== src/Scripts/Indexes.antt =====
-- What the indexes and the filters of the maintenance scripts hold.
use obsidian_sync.Base.{
  String, Bool, true, ◌≡◌, refl, sym, ap, subst, ◌∙◌, inl, inr, Option, some, List, [], ◌∷◌, ◌++◌,
  Dict, lookup, some_or, lookup-insert, if◌then◌else◌, Bool-cases, Option-cases, eq_iff, ◌==◌, In,
  here, there, In-split, In-one, In-nil,
}
use obsidian_sync.Scripts.{append_to, index_by, indexed, filtered}

module _ {A : Type 0} where
  -- what stands under a key of an index has that key
  abbrev pub Indexes : (A → Option String) → List A → Dict (List A) → Type 0
  Indexes key_of xs index =
      (key : String) (x : A) → In x (indexed key index) → In x xs × (key_of x ≡ some key)

  indexed-append_to :
      (key : String) (x : A) (index : Dict (List A)) (k : String)
      → indexed k (append_to key x index)
        ≡ (if key == k then indexed key index ++ (x ∷ []) else indexed k index)
  unfolding indexed append_to
  indexed-append_to key x index k = elim (Bool-cases (key == k)) [
    | inl same ↦
        rw
          (
            indexed,
            append_to,
            lookup-insert key k (some_or (lookup key index) [] ++ (x ∷ [])) index,
            same,
          )
          refl
    | inr other ↦
        rw
          (
            indexed,
            append_to,
            lookup-insert key k (some_or (lookup key index) [] ++ (x ∷ [])) index,
            other,
          )
          refl
  ]

  pub filtered-In :
      (keep : A → Bool) (xs : List A) (x : A) → In x (filtered keep xs) → In x xs × (keep x ≡ true)
  unfolding filtered
  filtered-In keep [] x h = absurd (In-nil x h)
  filtered-In keep (y ∷ ys) x h = elim (Bool-cases (keep y)) [
    | inr drop ↦ let r = filtered-In keep ys x (rw (filtered, drop) at h) in (there y ys r.0, r.1)
    | inl take ↦
        let h' : In x ((y ∷ []) ++ filtered keep ys) = rw (filtered, take) at h in
        elim (In-split x (y ∷ []) (filtered keep ys) h') [
          | inl first ↦
              let e : x ≡ y = In-one x y first in
              (subst (λ z. In z (y ∷ ys)) (sym e) (here ys), ap keep e ∙ take)
          | inr later ↦ let r = filtered-In keep ys x later in (there y ys r.0, r.1)
        ]
  ]

  pub index_by-Indexes :
      (key_of : A → Option String) (all xs : List A) (index : Dict (List A))
      → ((x : A) → In x xs → In x all)
      → Indexes key_of all index
      → Indexes key_of all (index_by key_of xs index)
  unfolding index_by
  index_by-Indexes key_of all [] index within holds = holds
  index_by-Indexes key_of all (x ∷ xs) index within holds =
      let later = λ (y : A) (h : In y xs). within y (there x xs h) in
      elim (Option-cases (key_of x)) [
        | inl keyless ↦ rw (index_by, keyless) (index_by-Indexes key_of all xs index later holds)
        | inr (key, keyed) ↦
            rw (index_by, keyed)
              (index_by-Indexes key_of all xs (append_to key x index) later (λ k y h.
                elim (Bool-cases (key == k)) [
                  | inr other ↦
                      holds k y (subst (In y) (indexed-append_to key x index k ∙ rw other refl) h)
                  | inl same ↦
                      elim (In-split y (indexed key index) (x ∷ [])
                        (subst (In y) (indexed-append_to key x index k ∙ rw same refl) h)) [
                          | inl old ↦
                              let r = holds key y old in
                              (r.0, r.1 ∙ ap some ((eq_iff key k).0 same))
                          | inr new ↦
                              let e : y ≡ x = In-one y x new in
                              (
                                subst (λ z. In z all) (sym e) (within x (here xs)),
                                ap key_of e ∙ keyed ∙ ap some ((eq_iff key k).0 same),
                              )
                        ]
                ]))
      ]
