-- ===== src/Vector.antt =====
-- src/version_vector.py: hybrid logical clock version vectors.
pub mod Order
pub mod Merge
pub mod Update
pub mod Trim
pub mod TrimKeys
mod Tests
use obsidian_sync.Base.{
  ℕ, zero, suc, String, Bool, true, false, ◌&&◌, List, [], ◌∷◌, Option, none, some, ℤ, pos, ◌+ℤ◌,
  leb_ℤ, max_ℤ, Dict, lookup, insert, keys, values, union, all_of, length, leb, if◌then◌else◌,
  first_chars, some_or,
}

pub data VectorOrdering : Type 0 where
  equal greater lesser concurrent_greater concurrent_lesser : VectorOrdering

-- The counters map the first eight characters of a device id to clock values.
pub record VersionVector : Type 0 where
  pub counters : Dict ℤ

-- `bool(v)`
unfoldable pub non_empty : VersionVector → Bool
non_empty v = elim v.counters [ [] ↦ false | e ∷ rest ↦ true ]

unfoldable pub empty : VersionVector
empty = record { counters = [] }

-- `self.counters.get(k, 0)`
unfoldable pub counter : VersionVector → String → ℤ
counter v k = some_or (lookup k v.counters) (pos 0)

-- `now_ms` is `int(now * 1000)`, the clock's reading in milliseconds.
unfoldable pub update : VersionVector → String → ℤ → VersionVector
update v device_id now_ms =
    let prefix = first_chars 8 device_id in
    record { counters = insert prefix (max_ℤ (counter v prefix +ℤ pos 1) now_ms) v.counters }

-- the keys of both vectors
unfoldable pub all_keys : VersionVector → VersionVector → List String
all_keys a b = union (keys a.counters) (keys b.counters)

-- `all(a.get(k, 0) >= b.get(k, 0) for k in keys)`
unfoldable pub covers : List String → VersionVector → VersionVector → Bool
covers ks a b = all_of (λ k. leb_ℤ (counter b k) (counter a k)) ks

-- `sum(xs)`
unfoldable pub sum : List ℤ → ℤ
sum [] = pos 0
sum (x ∷ xs) = x +ℤ sum xs

-- the tests of `compare` on its four computed values
unfoldable pub ordering_of : Bool → Bool → Bool → VectorOrdering
ordering_of a_ge b_ge sum_ge =
    if a_ge && b_ge
    then equal
    else if a_ge
    then greater
    else if b_ge
    then lesser
    else if sum_ge
    then concurrent_greater
    else concurrent_lesser

unfoldable pub compare : VersionVector → VersionVector → VectorOrdering
compare a b = elim (all_keys a b) [
  | [] ↦ equal
  | k ∷ ks ↦
      ordering_of (covers (k ∷ ks) a b) (covers (k ∷ ks) b a)
        (leb_ℤ (sum (values b.counters)) (sum (values a.counters)))
]

-- `{k: f(k) for k in ks}`
unfoldable pub tabulate {ℓ} : {V : Type ℓ} → (String → V) → List String → Dict V
tabulate f [] = []
tabulate f (k ∷ ks) = (k, f k) ∷ tabulate f ks

unfoldable pub merge : VersionVector → VersionVector → VersionVector
merge a b = record { counters = tabulate (λ k. max_ℤ (counter a k) (counter b k)) (all_keys a b) }

-- Inserts a counter into a list that falls by value, in front of those of equal value, which come
-- later in the dict: `sorted(..., key=value, reverse=True)` keeps the order of equal values.
unfoldable pub insert_by_value : String × ℤ → Dict ℤ → Dict ℤ
insert_by_value e [] = e ∷ []
insert_by_value e (f ∷ rest) = if leb_ℤ f.1 e.1 then e ∷ f ∷ rest else f ∷ insert_by_value e rest

unfoldable pub sort_by_value : Dict ℤ → Dict ℤ
sort_by_value [] = []
sort_by_value (e ∷ rest) = insert_by_value e (sort_by_value rest)

-- `xs[:n]`
unfoldable pub take {ℓ} : {A : Type ℓ} → ℕ → List A → List A
take zero xs = []
take (suc n) [] = []
take (suc n) (x ∷ xs) = x ∷ take n xs

unfoldable pub trim : ℕ → VersionVector → VersionVector
trim max_devices v =
    if leb (length v.counters) max_devices
    then v
    else record { counters = take max_devices (sort_by_value v.counters) }

-- `dict(self.counters)`
unfoldable pub to_dict : VersionVector → Dict ℤ
to_dict v = v.counters

-- `None` and the empty dict give the empty vector. The values are integers in the state file.
unfoldable pub from_dict : Option (Dict ℤ) → VersionVector
from_dict none = empty
from_dict (some d) = record { counters = d }
