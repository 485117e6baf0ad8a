-- ===== src/Base/TextOrder.antt =====
-- The order of texts is total and antisymmetric.
use Prim.Native.Nat.{ℕ, Ordering, compare as compare_ℕ}
use Prim.Native.Char.{code}
use Prim.Native.String.compare
use Prim.Native.String.{String, [], ◌∷◌, compare, then}
use mathlib.Core.Path.{◌≡◌, refl}
use mathlib.Core.Bool.{true, false}
use native.Mathlib.Omega.{arith}
use text.Mathlib.TextEquality.{path_by_compare}
use obsidian_sync.Base.Texts.{lt_text}

abbrev swap : Ordering → Ordering
swap Ordering.lt = Ordering.gt
swap Ordering.eq = Ordering.eq
swap Ordering.gt = Ordering.lt

swap-compare_ℕ : (m n : ℕ) → compare_ℕ n m ≡ swap (compare_ℕ m n)
swap-compare_ℕ m n = ground arith

swap-then : (o p : Ordering) → then (swap o) (swap p) ≡ swap (then o p)
swap-then Ordering.lt p = refl
swap-then Ordering.eq p = refl
swap-then Ordering.gt p = refl

swap-compare : (s t : String) → compare t s ≡ swap (compare s t)
swap-compare [] [] = refl
swap-compare [] (d ∷ t) = rw (compare.cons-nil d t, compare.nil-cons d t)
swap-compare (c ∷ s) [] = rw (compare.cons-nil c s, compare.nil-cons c s)
swap-compare (c ∷ s) (d ∷ t) =
    rw
      (
        compare.cons-cons d c t s,
        compare.cons-cons c d s t,
        swap-compare_ℕ (code c) (code d),
        swap-compare s t,
      )
      (swap-then (compare_ℕ (code c) (code d)) (compare s t))

pub lt_text_asym : (s t : String) → lt_text s t ≡ true → lt_text t s ≡ false
lt_text_asym s t h = ground (arith, swap-compare s t)

pub eq_of_not_lt_text : (s t : String) → lt_text s t ≡ false → lt_text t s ≡ false → s ≡ t
eq_of_not_lt_text s t h k = path_by_compare s t (ground (arith, swap-compare s t))
