-- ===== src/Vector/Merge.antt =====
-- `merge` is the least upper bound of two histories.
use obsidian_sync.Base.{
  String, ◌≡◌, ◌↔◌, ≤ℤ_trans, refl, inl, inr, List, [], ◌∷◌, none, some, ◌==◌, eq_iff,
  if◌then◌else◌, max_ℤ, max_ℤ_left, max_ℤ_right, max_ℤ_least, lookup, contains, arith, Bool-cases,
}
use obsidian_sync.Vector.{equal, VersionVector, counter, all_keys, tabulate, compare, merge}
use obsidian_sync.Vector.Order.{◌≤ⱽ◌, compare_iff, outside}

lookup-tabulate {ℓ} :
    {V : Type ℓ} (f : String → V) (ks : List String) (k : String)
    → lookup k (tabulate f ks) ≡ (if contains ks k then some (f k) else none)
unfolding lookup tabulate contains
lookup-tabulate f [] k = refl
lookup-tabulate f (j ∷ ks) k = elim (Bool-cases (j == k)) [
  | inl here ↦ rw (here, (eq_iff j k).0 here)
  | inr other ↦ rw other (lookup-tabulate f ks k)
]

-- Each counter of the merge is the larger of the two counters, also for a key that is in neither.
pub counter-merge :
    (a b : VersionVector) (k : String) → counter (merge a b) k ≡ max_ℤ (counter a k) (counter b k)
unfolding merge
counter-merge a b k = elim (Bool-cases (contains (all_keys a b) k)) [
  | inl known ↦ unfold counter in rw (lookup-tabulate, known)
  | inr absent ↦
      let e = outside a b k absent in
      rw (e.0, e.1) (unfold counter max_ℤ in rw (lookup-tabulate, absent))
]

-- A vector has every event of the merge exactly if it has every event of both vectors: the merge
-- is the least such vector.
pub merge_le_iff : (a b c : VersionVector) → (merge a b ≤ⱽ c) ↔ (a ≤ⱽ c) × (b ≤ⱽ c)
merge_le_iff a b c = (
  λ h. (
    λ k.
        ≤ℤ_trans (counter a k) (counter (merge a b) k) (counter c k)
          (rw counter-merge (max_ℤ_left (counter a k) (counter b k))) (h k),
    λ k.
        ≤ℤ_trans (counter b k) (counter (merge a b) k) (counter c k)
          (rw counter-merge (max_ℤ_right (counter a k) (counter b k))) (h k),
  ),
  λ h k. rw counter-merge (max_ℤ_least (counter a k) (counter b k) (counter c k) (h.0 k) (h.1 k)),
)

-- Merging in the other order, or a second time, gives a vector that compares as equal.
pub compare-merge :
    (a b : VersionVector)
    → (compare (merge a b) (merge b a) ≡ equal)
      × (compare (merge (merge a b) b) (merge a b) ≡ equal)
unfolding max_ℤ
compare-merge a b = (
  (compare_iff _ _ equal).1 (λ k. simp counter-merge (ground arith)),
  (compare_iff _ _ equal).1 (λ k. simp counter-merge (ground arith)),
)
