-- ===== src/Vector/Order.antt =====
-- `compare` against the pointwise order of the counters.
use obsidian_sync.Base.{
  String, Bool, true, false, ◌≡◌, ◌≢◌, refl, sym, ap, subst, ◌∙◌, ◌↔◌, inl, inr, List, ℤ, pos, ◌≤ℤ◌,
  ◌<ℤ◌, leb_ℤ, leb_ℤ_iff, ≤ℤ_refl, ≤ℤ_antisymm, keys, values, contains, contains-union,
  lookup-not_contains, all_of, all_of-contains, all_of_intro, arith, refuted, Bool-cases, some_or,
}
use obsidian_sync.Vector.{
  VectorOrdering, equal, greater, lesser, concurrent_greater, concurrent_lesser, VersionVector,
  counter, all_keys, covers, sum, ordering_of, compare,
}

-- `a` has every event that `b` counts
infix 50 ◌≤ⱽ◌
abbrev pub ◌≤ⱽ◌ : VersionVector → VersionVector → Type 0
b ≤ⱽ a = (k : String) → counter b k ≤ℤ counter a k

pub counter_absent :
    (v : VersionVector) (k : String) → contains (keys v.counters) k ≡ false → counter v k ≡ pos 0
unfolding counter
counter_absent v k h = ap (λ o. some_or o (pos 0)) (lookup-not_contains k v.counters h)

-- Outside the keys of both vectors the two counters are the default.
pub outside :
    (a b : VersionVector) (k : String)
    → contains (all_keys a b) k ≡ false
    → (counter a k ≡ pos 0) × (counter b k ≡ pos 0)
unfolding all_keys
outside a b k h =
    let e = contains-union (keys a.counters) (keys b.counters) k in
    (counter_absent a k (ground arith), counter_absent b k (ground arith))

covers_iff :
    (ks : List String) (a b : VersionVector)
    → ((k : String) → contains ks k ≡ false → counter b k ≤ℤ counter a k)
    → (covers ks a b ≡ true) ↔ (b ≤ⱽ a)
unfolding covers
covers_iff ks a b other = (
  λ h k. elim (Bool-cases (contains ks k)) [
    | inl known ↦
        (leb_ℤ_iff (counter b k) (counter a k)).0
          (all_of-contains (λ j. leb_ℤ (counter b j) (counter a j)) ks k h known)
    | inr absent ↦ other k absent
  ],
  λ h. all_of_intro _ ks (λ k. (leb_ℤ_iff (counter b k) (counter a k)).1 (h k)),
)

module _ (a b : VersionVector) where
  left_covers_iff : (covers (all_keys a b) a b ≡ true) ↔ (b ≤ⱽ a)
  left_covers_iff =
      covers_iff (all_keys a b) a b
        (λ k absent. let e = outside a b k absent in rw (e.0, e.1) (omega arith))

  right_covers_iff : (covers (all_keys a b) b a ≡ true) ↔ (a ≤ⱽ b)
  right_covers_iff =
      covers_iff (all_keys a b) b a
        (λ k absent. let e = outside a b k absent in rw (e.0, e.1) (omega arith))

  abbrev sum_test : Bool
  sum_test = leb_ℤ (sum (values b.counters)) (sum (values a.counters))

  -- The early return for two empty vectors gives what the tests would give.
  compare_as_tests :
      compare a b ≡ ordering_of (covers (all_keys a b) a b) (covers (all_keys a b) b a) sum_test
  unfolding compare covers ordering_of all_of
  compare_as_tests = ground arith

-- What each answer of `compare` says of the histories.
abbrev pub Describes : VectorOrdering → VersionVector → VersionVector → Type 0
Describes equal a b = (k : String) → counter a k ≡ counter b k
Describes greater a b = (b ≤ⱽ a) × (¬ (a ≤ⱽ b))
Describes lesser a b = (a ≤ⱽ b) × (¬ (b ≤ⱽ a))
Describes concurrent_greater a b =
    (¬ (a ≤ⱽ b)) × (¬ (b ≤ⱽ a)) × (sum (values b.counters) ≤ℤ sum (values a.counters))
Describes concurrent_lesser a b =
    (¬ (a ≤ⱽ b)) × (¬ (b ≤ⱽ a)) × (sum (values a.counters) <ℤ sum (values b.counters))

strict : (a b : ℤ) → a ≤ℤ b → a ≢ b → a <ℤ b
strict a b h n = ground (arith, n, ≤ℤ_antisymm a b h)

module _ (a b : VersionVector) where
  abbrev SumsLe : Type 0
  SumsLe = sum (values b.counters) ≤ℤ sum (values a.counters)

  tests_describe :
      (x y z : Bool)
      → (x ≡ true) ↔ (b ≤ⱽ a)
      → (y ≡ true) ↔ (a ≤ⱽ b)
      → (z ≡ true) ↔ SumsLe
      → Describes (ordering_of x y z) a b
  unfolding ordering_of
  tests_describe true true z p q r =
      λ k. ≤ℤ_antisymm (counter a k) (counter b k) (q.0 refl k) (p.0 refl k)
  tests_describe true false z p q r = (p.0 refl, λ h. cc (q.1 h))
  tests_describe false true z p q r = (q.0 refl, λ h. cc (p.1 h))
  tests_describe false false true p q r = (λ h. cc (q.1 h), λ h. cc (p.1 h), r.0 refl)
  tests_describe false false false p q r =
      (λ h. cc (q.1 h), λ h. cc (p.1 h), let n : ¬ SumsLe = λ h. cc (r.1 h) in omega arith)

  described_by :
      (x y z : Bool) (o : VectorOrdering)
      → (x ≡ true) ↔ (b ≤ⱽ a)
      → (y ≡ true) ↔ (a ≤ⱽ b)
      → (z ≡ true) ↔ SumsLe
      → Describes o a b
      → ordering_of x y z ≡ o
  unfolding ordering_of
  described_by x y z equal p q r d =
      rw (p.1 (λ k. rw (d k) (omega arith)), q.1 (λ k. rw (d k) (omega arith)))
  described_by x y z greater p q r d = rw (p.1 d.0, refuted y (λ e. d.1 (q.0 e)))
  described_by x y z lesser p q r d = rw (q.1 d.0, refuted x (λ e. d.1 (p.0 e)))
  described_by x y z concurrent_greater p q r d =
      rw (refuted x (λ e. d.1 (p.0 e)), refuted y (λ e. d.0 (q.0 e)), r.1 d.2)
  described_by x y z concurrent_lesser p q r d = rw (
    refuted x (λ e. d.1 (p.0 e)),
    refuted y (λ e. d.0 (q.0 e)),
    refuted z (λ e. let h = r.0 e in absurd (omega arith)),
  )

  sum_test_iff : (sum_test a b ≡ true) ↔ SumsLe
  sum_test_iff = leb_ℤ_iff (sum (values b.counters)) (sum (values a.counters))

  -- `compare` returns exactly the answer that describes the two histories: equality when all
  -- counters agree, greater or lesser when one side has all events of the other and not the
  -- converse, and a concurrent answer, decided by the sums, when neither side covers the other.
  pub compare_iff : (o : VectorOrdering) → (compare a b ≡ o) ↔ Describes o a b
  compare_iff o =
      let tests = compare_as_tests a b in
      let p = left_covers_iff a b in
      let q = right_covers_iff a b in
      (
        λ h. subst (λ o'. Describes o' a b) (sym tests ∙ h) (tests_describe _ _ _ p q sum_test_iff),
        λ d. tests ∙ described_by _ _ _ o p q sum_test_iff d,
      )

-- the answer with the two sides exchanged
unfoldable pub flip : VectorOrdering → VectorOrdering
flip equal = equal
flip greater = lesser
flip lesser = greater
flip concurrent_greater = concurrent_lesser
flip concurrent_lesser = concurrent_greater

abbrev pub IsConcurrent : VectorOrdering → Type 0
IsConcurrent concurrent_greater = Unit
IsConcurrent concurrent_lesser = Unit
IsConcurrent _ = ⊥

Describes-flip :
    (a b : VersionVector) (o : VectorOrdering)
    → (IsConcurrent o → sum (values a.counters) ≢ sum (values b.counters))
    → Describes o a b
    → Describes (flip o) b a
unfolding flip
Describes-flip a b equal n d = λ k. sym (d k)
Describes-flip a b greater n d = d
Describes-flip a b lesser n d = d
Describes-flip a b concurrent_greater n d =
    (d.1, d.0, strict (sum (values b.counters)) (sum (values a.counters)) d.2 (λ e. n tt (sym e)))
Describes-flip a b concurrent_lesser n d = (d.1, d.0, omega arith)

-- Two devices that compare the same two vectors from opposite sides get opposite answers, unless
-- the vectors are concurrent and the sums of their counters are equal.
pub compare-flip :
    (a b : VersionVector)
    → (IsConcurrent (compare a b) → sum (values a.counters) ≢ sum (values b.counters))
    → compare b a ≡ flip (compare a b)
compare-flip a b n =
    (compare_iff b a (flip (compare a b))).1
      (Describes-flip a b (compare a b) n ((compare_iff a b (compare a b)).0 refl))

pub IsConcurrent-of_incomparable :
    (a b : VersionVector) → ¬ (a ≤ⱽ b) → ¬ (b ≤ⱽ a) → IsConcurrent (compare a b)
IsConcurrent-of_incomparable a b m n = go (compare a b) ((compare_iff a b (compare a b)).0 refl)
  where
    go : (o : VectorOrdering) → Describes o a b → IsConcurrent o
    go equal d = absurd (m (λ k. rw (d k) (≤ℤ_refl (counter b k))))
    go greater d = absurd (n d.0)
    go lesser d = absurd (m d.0)
    go concurrent_greater d = tt
    go concurrent_lesser d = tt
