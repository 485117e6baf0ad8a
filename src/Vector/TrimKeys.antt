-- ===== src/Vector/TrimKeys.antt =====
-- `trim` keeps the keys of the counters apart.
use obsidian_sync.Base.{
  ℕ, zero, suc, String, false, ◌≡◌, refl, ◌∙◌, inl, inr, [], ◌∷◌, ℤ, eq_iff, leb, leb_ℤ, Dict,
  length, arith, Bool-cases, keys, contains, Distinct,
}
use obsidian_sync.Vector.{VersionVector, insert_by_value, sort_by_value, take, trim}

insert_by_value-keys :
    (e : String × ℤ) (d : Dict ℤ) (k : String)
    → contains (keys (insert_by_value e d)) k ≡ contains (keys (e ∷ d)) k
unfolding insert_by_value keys contains
insert_by_value-keys e [] k = refl
insert_by_value-keys e (f ∷ d) k = ground (arith, insert_by_value-keys e d k)

insert_by_value-Distinct :
    (e : String × ℤ) (d : Dict ℤ)
    → contains (keys d) e.0 ≡ false
    → Distinct d
    → Distinct (insert_by_value e d)
unfolding insert_by_value keys contains
insert_by_value-Distinct e [] n u = (n, tt)
insert_by_value-Distinct e (f ∷ d) n u = elim (Bool-cases (leb_ℤ f.1 e.1)) [
  | inl le ↦ rw le (n, u)
  | inr gt ↦ rw gt (
    insert_by_value-keys e d f.0 ∙ ground (arith, n, u.0, eq_iff e.0 f.0, eq_iff f.0 e.0),
    insert_by_value-Distinct e d (ground (arith, n)) u.1,
  )
]

sort_by_value-keys :
    (d : Dict ℤ) (k : String) → contains (keys (sort_by_value d)) k ≡ contains (keys d) k
unfolding sort_by_value keys contains
sort_by_value-keys [] k = refl
sort_by_value-keys (e ∷ d) k =
    insert_by_value-keys e (sort_by_value d) k ∙ rw (sort_by_value-keys d k)

sort_by_value-Distinct : (d : Dict ℤ) → Distinct d → Distinct (sort_by_value d)
unfolding sort_by_value
sort_by_value-Distinct [] u = tt
sort_by_value-Distinct (e ∷ d) u =
    insert_by_value-Distinct e (sort_by_value d) (sort_by_value-keys d e.0 ∙ u.0)
      (sort_by_value-Distinct d u.1)

take-keys :
    (n : ℕ) (d : Dict ℤ) (k : String)
    → contains (keys d) k ≡ false
    → contains (keys (take n d)) k ≡ false
unfolding take keys contains
take-keys zero d k h = refl
take-keys (suc n) [] k h = refl
take-keys (suc n) (e ∷ d) k h = ground (arith, take-keys n d k)

take-Distinct : (n : ℕ) (d : Dict ℤ) → Distinct d → Distinct (take n d)
unfolding take
take-Distinct zero d u = tt
take-Distinct (suc n) [] u = tt
take-Distinct (suc n) (e ∷ d) u = (take-keys n d e.0 u.0, take-Distinct n d u.1)

pub trim-Distinct :
    (max_devices : ℕ) (v : VersionVector)
    → Distinct v.counters
    → Distinct (trim max_devices v).counters
unfolding trim
trim-Distinct n v u = elim (Bool-cases (leb (length v.counters) n)) [
  | inl small ↦ rw small u
  | inr large ↦
      rw large (take-Distinct n (sort_by_value v.counters) (sort_by_value-Distinct v.counters u))
]
