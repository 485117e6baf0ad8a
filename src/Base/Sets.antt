-- ===== src/Base/Sets.antt =====
-- Python's sets of keys, and dicts that are filled key by key.
use Prim.Native.String.{String}
use mathlib.Core.Path.{◌≡◌, refl, ap, ◌∙◌}
use mathlib.Core.Logic.{inl, inr}
use mathlib.Core.Bool.{Bool, true, false, ◌&&◌, ◌||◌, not}
use mathlib.Core.Option.{Option, none, some}
use mathlib.Core.List.{List, [], ◌∷◌}
use native.Mathlib.Omega.{arith}
use text.Mathlib.Text.{◌==◌}
use text.Mathlib.TextEquality.{eq_iff}
use text.Mathlib.TextPositions.{eq_refl}
use obsidian_sync.Base.Tests.{if◌then◌else◌, Bool-cases}
use obsidian_sync.Base.Texts.{insert_text, sort_texts}
use obsidian_sync.Base.Dicts.{Dict, contains, lookup, insert, lookup-insert}

-- `xs - ys` on sets of keys
unfoldable pub minus : List String → List String → List String
minus [] ys = []
minus (x ∷ xs) ys = let rest = minus xs ys in if contains ys x then rest else x ∷ rest

-- `xs & ys` on sets of keys
unfoldable pub meet : List String → List String → List String
meet [] ys = []
meet (x ∷ xs) ys = let rest = meet xs ys in if contains ys x then x ∷ rest else rest

pub contains-minus :
    (xs ys : List String) (k : String)
    → contains (minus xs ys) k ≡ contains xs k && not (contains ys k)
unfolding contains minus
contains-minus [] ys k = refl
contains-minus (x ∷ xs) ys k = elim (Bool-cases (x == k)) [
  | inl same ↦ rw ((eq_iff x k).0 same) (ground (arith, contains-minus xs ys k, eq_iff k k))
  | inr other ↦ ground (arith, contains-minus xs ys k)
]

pub contains-meet :
    (xs ys : List String) (k : String) → contains (meet xs ys) k ≡ contains xs k && contains ys k
unfolding contains meet
contains-meet [] ys k = refl
contains-meet (x ∷ xs) ys k = elim (Bool-cases (x == k)) [
  | inl same ↦ rw ((eq_iff x k).0 same) (ground (arith, contains-meet xs ys k, eq_iff k k))
  | inr other ↦ ground (arith, contains-meet xs ys k)
]

contains-insert_text :
    (x : String) (ts : List String) (k : String)
    → contains (insert_text x ts) k ≡ x == k || contains ts k
unfolding insert_text contains
contains-insert_text x [] k = refl
contains-insert_text x (t ∷ ts) k = ground (arith, contains-insert_text x ts k)

pub contains-sort_texts :
    (ts : List String) (k : String) → contains (sort_texts ts) k ≡ contains ts k
unfolding sort_texts contains
contains-sort_texts [] k = refl
contains-sort_texts (t ∷ ts) k =
    ground (arith, contains-insert_text t (sort_texts ts) k, contains-sort_texts ts k)

module _ {ℓ} {V : Type ℓ} where
  -- `for k in ks: acc[k] = f(k)`, where `f` may pass over a key
  unfoldable pub collect : (String → Option V) → List String → Dict V → Dict V
  collect f [] acc = acc
  collect f (k ∷ ks) acc = collect f ks (elim (f k) [ none ↦ acc | some v ↦ insert k v acc ])

  -- the value at a key after one step of `collect`
  abbrev pub collected : Option V → Option V → Option V
  collected none old = old
  collected (some v) old = some v

  lookup-collect_step :
      (f : String → Option V) (j k : String) (acc : Dict V)
      → lookup k (elim (f j) as (λ _. Dict V) [ none ↦ acc | some v ↦ insert j v acc ])
        ≡ (if j == k then collected (f k) (lookup k acc) else lookup k acc)
  lookup-collect_step f j k acc = elim (Bool-cases (j == k)) [
    | inl same ↦ rw (same, ← (eq_iff j k).0 same) (on_key (f j))
    | inr other ↦ rw other (off_key (f j) other)
  ]
    where
      on_key :
          (o : Option V)
          → lookup j (elim o as (λ _. Dict V) [ none ↦ acc | some v ↦ insert j v acc ])
            ≡ collected o (lookup j acc)
      on_key none = refl
      on_key (some v) = lookup-insert j j v acc ∙ rw (eq_refl j)

      off_key :
          (o : Option V)
          → (j == k) ≡ false
          → lookup k (elim o as (λ _. Dict V) [ none ↦ acc | some v ↦ insert j v acc ])
            ≡ lookup k acc
      off_key none n = refl
      off_key (some v) n = lookup-insert j k v acc ∙ rw n

  twice :
      (b c : Bool) (o old : Option V)
      → (if c
          then collected o (if b then collected o old else old)
          else (if b then collected o old else old))
        ≡ (if b || c then collected o old else old)
  twice true true none old = refl
  twice true true (some v) old = refl
  twice true false o old = refl
  twice false c o old = refl

  pub lookup-collect :
      (f : String → Option V) (ks : List String) (k : String) (acc : Dict V)
      → lookup k (collect f ks acc)
        ≡ (if contains ks k then collected (f k) (lookup k acc) else lookup k acc)
  unfolding collect contains
  lookup-collect f [] k acc = refl
  lookup-collect f (j ∷ ks) k acc =
      let acc' : Dict V = elim (f j) [ none ↦ acc | some v ↦ insert j v acc ] in
      lookup-collect f ks k acc'
      ∙ ap (λ old. if contains ks k then collected (f k) old else old)
          (lookup-collect_step f j k acc)
      ∙ twice (j == k) (contains ks k) (f k) (lookup k acc)
