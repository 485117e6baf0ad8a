-- ===== src/Base/Members.antt =====
-- Membership in a list, with the place.
use mathlib.Core.Path.{◌≡◌, refl}
use mathlib.Core.Logic.{◌⊎◌, inl, inr}
use mathlib.Core.List.{List, [], ◌∷◌, ◌++◌}

module _ {A : Type 0} where
  -- the list has the element
  pub data In (x : A) : List A → Type 0 where
    here : (xs : List A) → In x (x ∷ xs)
    there : (y : A) (xs : List A) → In x xs → In x (y ∷ xs)

  pub In-left : (x : A) (xs ys : List A) → In x xs → In x (xs ++ ys)
  In-left x _ ys (here xs) = here (xs ++ ys)
  In-left x _ ys (there y xs h) = there y (xs ++ ys) (In-left x xs ys h)

  pub In-right : (x : A) (xs ys : List A) → In x ys → In x (xs ++ ys)
  In-right x [] ys h = h
  In-right x (y ∷ xs) ys h = there y (xs ++ ys) (In-right x xs ys h)

  pub In-split : (x : A) (xs ys : List A) → In x (xs ++ ys) → In x xs ⊎ In x ys
  In-split x [] ys h = inr h
  In-split x (y ∷ xs) ys (here _) = inl (here xs)
  In-split x (y ∷ xs) ys (there _ _ h) = elim (In-split x xs ys h) [
    | inl old ↦ inl (there y xs old)
    | inr new ↦ inr new
  ]

  pub In-nil : (x : A) → ¬ (In x [])
  In-nil x h = elim h [ ]

  pub In-one : (x y : A) → In x (y ∷ []) → x ≡ y
  In-one x _ (here _) = refl
  In-one x y (there _ _ h) = elim h [ ]
