-- ===== src/Base/Dicts.antt =====
-- Python's `dict` with text keys: an association list in insertion order. Writing to a key that is
-- there keeps its place; a new key goes to the end.
use Prim.Native.Nat.{ℕ, suc}
use Prim.Native.String.{String}
use mathlib.Core.Path.{◌≡◌, refl, sym, ◌∙◌}
use mathlib.Core.Logic.{inl, inr}
use mathlib.Core.Bool.{Bool, true, false, ◌&&◌, ◌||◌}
use mathlib.Core.Option.{Option, none, some}
use mathlib.Core.List.{List, [], ◌∷◌, ◌++◌, append-nil, append_assoc}
use native.Mathlib.Omega.{arith}
use text.Mathlib.Text.{◌==◌}
use text.Mathlib.TextEquality.{eq_iff}
use obsidian_sync.Base.Tests.{is_some, if◌then◌else◌, Bool-cases}

abbrev pub Dict {ℓ} : Type ℓ → Type ℓ
Dict V = List (String × V)

module _ {ℓ} {A : Type ℓ} where
  abbrev pub length : List A → ℕ
  length [] = 0
  length (x ∷ xs) = suc (length xs)

-- `k in ks`
unfoldable pub contains : List String → String → Bool
contains [] k = false
contains (j ∷ ks) k = j == k || contains ks k

-- `all(p(k) for k in ks)`
unfoldable pub all_of {ℓ} : {A : Type ℓ} → (A → Bool) → List A → Bool
all_of p [] = true
all_of p (x ∷ xs) = p x && all_of p xs

pub all_of-contains :
    (p : String → Bool) (ks : List String) (k : String)
    → all_of p ks ≡ true
    → contains ks k ≡ true
    → p k ≡ true
unfolding all_of contains
all_of-contains p [] k h c = cc
all_of-contains p (j ∷ ks) k h c = ground (arith, all_of-contains p ks k, eq_iff j k)

pub all_of_intro {ℓ} :
    {A : Type ℓ} (p : A → Bool) (xs : List A) → ((x : A) → p x ≡ true) → all_of p xs ≡ true
unfolding all_of
all_of_intro p [] h = refl
all_of_intro p (x ∷ xs) h = ground (arith, h x, all_of_intro p xs h)

-- the elements of `new` that `seen` lacks, once each
unfoldable pub missing_from : List String → List String → List String
unfolding contains
missing_from seen [] = []
missing_from seen (k ∷ new) =
    let rest = missing_from (k ∷ seen) new in
    let same = missing_from seen new in if contains seen k then same else k ∷ rest

-- `set(xs) | set(ys)`, in one of the orders that Python may choose
unfoldable pub union : List String → List String → List String
unfolding missing_from
union xs ys = missing_from [] (xs ++ ys)

pub contains-append :
    (xs ys : List String) (k : String) → contains (xs ++ ys) k ≡ contains xs k || contains ys k
unfolding contains
contains-append [] ys k = refl
contains-append (x ∷ xs) ys k = ground (arith, contains-append xs ys k)

contains-missing_from :
    (seen new : List String) (k : String)
    → contains seen k ≡ false
    → contains (missing_from seen new) k ≡ contains new k
unfolding contains missing_from
contains-missing_from seen [] k h = refl
contains-missing_from seen (j ∷ new) k h =
    ground (
      arith,
      contains-missing_from (j ∷ seen) new k,
      contains-missing_from seen new k h,
      eq_iff j k,
    )

-- The union of two key sets has the keys of both and no others.
pub contains-union :
    (xs ys : List String) (k : String) → contains (union xs ys) k ≡ contains xs k || contains ys k
unfolding union contains
contains-union xs ys k = contains-missing_from [] (xs ++ ys) k refl ∙ contains-append xs ys k

module _ {ℓ} {V : Type ℓ} where
  -- `d.get(k)`
  unfoldable pub lookup : String → Dict V → Option V
  lookup k [] = none
  lookup k ((j, v) ∷ d) = if j == k then some v else lookup k d

  -- `d[k] = v`
  unfoldable pub insert : String → V → Dict V → Dict V
  insert k v [] = (k, v) ∷ []
  insert k v ((j, w) ∷ d) = if j == k then (j, v) ∷ d else (j, w) ∷ insert k v d

  -- `d.pop(k, None)`
  unfoldable pub remove : String → Dict V → Dict V
  remove k [] = []
  remove k ((j, w) ∷ d) = let rest = remove k d in if j == k then rest else (j, w) ∷ rest

  unfoldable pub keys : Dict V → List String
  keys [] = []
  keys ((j, v) ∷ d) = j ∷ keys d

  unfoldable pub values : Dict V → List V
  values [] = []
  values ((j, v) ∷ d) = v ∷ values d

  pub lookup-insert :
      (k j : String) (v : V) (d : Dict V)
      → lookup j (insert k v d) ≡ (if k == j then some v else lookup j d)
  unfolding lookup insert
  lookup-insert k j v [] = refl
  lookup-insert k j v ((i, w) ∷ d) =
      ground (arith, eq_iff k j, eq_iff i k, eq_iff i j, lookup-insert k j v d)

  pub lookup-remove :
      (k j : String) (d : Dict V) → lookup j (remove k d) ≡ (if k == j then none else lookup j d)
  unfolding lookup remove
  lookup-remove k j [] = ground arith
  lookup-remove k j ((i, w) ∷ d) =
      ground (arith, eq_iff k j, eq_iff i k, eq_iff i j, lookup-remove k j d)

  -- A key is in a dict exactly when it has a value.
  pub contains-keys : (k : String) (d : Dict V) → contains (keys d) k ≡ is_some (lookup k d)
  unfolding lookup contains keys
  contains-keys k [] = refl
  contains-keys k ((j, v) ∷ d) = ground (arith, contains-keys k d)

  pub lookup-not_contains :
      (k : String) (d : Dict V) → contains (keys d) k ≡ false → lookup k d ≡ none
  unfolding lookup contains keys
  lookup-not_contains k [] h = refl
  lookup-not_contains k ((j, v) ∷ d) h = ground (arith, lookup-not_contains k d)

module _ {ℓ} {V : Type ℓ} where
  -- The representation invariant of a dict: no key stands twice.
  abbrev pub Distinct : Dict V → Type 0
  Distinct [] = Unit
  Distinct ((k, v) ∷ d) = (contains (keys d) k ≡ false) × Distinct d

  -- none of the keys of the first dict is in the second
  abbrev pub Fresh {κ} : {W : Type κ} → Dict V → Dict W → Type 0
  Fresh [] acc = Unit
  Fresh ((k, v) ∷ d) acc = (contains (keys acc) k ≡ false) × Fresh d acc

  pub contains-keys-insert :
      (k j : String) (v : V) (d : Dict V)
      → contains (keys (insert k v d)) j ≡ (k == j) || contains (keys d) j
  unfolding contains keys insert
  contains-keys-insert k j v [] = refl
  contains-keys-insert k j v ((i, w) ∷ d) =
      ground (arith, eq_iff k j, eq_iff i k, eq_iff i j, contains-keys-insert k j v d)

  pub insert-Distinct : (k : String) (v : V) (d : Dict V) → Distinct d → Distinct (insert k v d)
  unfolding contains keys insert
  insert-Distinct k v [] h = (refl, tt)
  insert-Distinct k v ((i, w) ∷ d) h = elim (Bool-cases (i == k)) [
    | inl same ↦ rw same h
    | inr other ↦ rw other (
      contains-keys-insert k i v d ∙ ground (arith, h.0, eq_iff i k, eq_iff k i),
      insert-Distinct k v d h.1,
    )
  ]

  -- A new key goes to the end.
  pub insert-fresh :
      (k : String) (v : V) (d : Dict V)
      → contains (keys d) k ≡ false
      → insert k v d ≡ d ++ ((k, v) ∷ [])
  unfolding contains keys insert
  insert-fresh k v [] h = refl
  insert-fresh k v ((i, w) ∷ d) h = ground (arith, insert-fresh k v d)

  -- `for k, v in d.items(): acc[k] = v`
  unfoldable pub insert_all : Dict V → Dict V → Dict V
  insert_all acc [] = acc
  insert_all acc ((k, v) ∷ d) = insert_all (insert k v acc) d

  Fresh-insert :
      (k : String) (v : V) (d acc : Dict V)
      → contains (keys d) k ≡ false
      → Fresh d acc
      → Fresh d (insert k v acc)
  unfolding contains keys
  Fresh-insert k v [] acc n h = tt
  Fresh-insert k v ((j, w) ∷ d) acc n h = (
    contains-keys-insert k j v acc ∙ ground (arith, n, h.0, eq_iff j k, eq_iff k j),
    Fresh-insert k v d acc (ground arith) h.1,
  )

  pub insert_all-Fresh : (acc d : Dict V) → Distinct d → Fresh d acc → insert_all acc d ≡ acc ++ d
  unfolding insert_all
  insert_all-Fresh acc [] u h = sym (append-nil acc)
  insert_all-Fresh acc ((k, v) ∷ d) u h =
      insert_all-Fresh (insert k v acc) d u.1 (Fresh-insert k v d acc u.0 h.1)
      ∙ rw (insert-fresh k v acc h.0) (append_assoc acc ((k, v) ∷ []) d)

pub Fresh-nil {ℓ κ} : {V : Type ℓ} (W : Type κ) (d : Dict V) → Fresh {W = W} d []
unfolding contains keys
Fresh-nil W [] = tt
Fresh-nil W (e ∷ d) = (refl, Fresh-nil W d)
