-- ===== src/Vector/Tests.antt =====
-- The vector theorems at concrete vectors.
use obsidian_sync.Base.{
  ◌+ℤ◌, all_of, keys, union, ◌≡◌, ◌≢◌, ◌↔◌, refl, [], ◌∷◌, pos, max_ℤ, values, first_chars, insert,
  lookup, eq_iff, eqb_ℤ_iff,
}
use obsidian_sync.Vector.{
  insert_by_value, sort_by_value, take, covers, ordering_of, all_keys, concurrent_greater,
  VersionVector, counter, compare, update, trim, sum,
}
use obsidian_sync.Vector.Order.{Describes, compare_iff}

abbrev laptop_edit : VersionVector
laptop_edit = record { counters = ("laptop00", pos 7) ∷ ("phone000", pos 2) ∷ [] }

abbrev phone_edit : VersionVector
phone_edit = record { counters = ("laptop00", pos 5) ∷ ("phone000", pos 3) ∷ [] }

compare_laptop : compare laptop_edit phone_edit ≡ concurrent_greater
unfolding compare all_keys union keys ordering_of covers all_of counter lookup sum values ◌+ℤ◌
compare_laptop = refl

update_phone :
    update phone_edit "phone000-1" (pos 9)
    ≡ record { counters = ("laptop00", pos 5) ∷ ("phone000", pos 9) ∷ [] }
unfolding update insert first_chars max_ℤ ◌+ℤ◌ counter lookup
update_phone = refl

trim_phone : trim 1 phone_edit ≡ record { counters = ("laptop00", pos 5) ∷ [] }
unfolding trim take sort_by_value insert_by_value
trim_phone = refl

compare_iff_example :
    (compare laptop_edit phone_edit ≡ concurrent_greater)
    ↔ Describes concurrent_greater laptop_edit phone_edit
compare_iff_example = compare_iff laptop_edit phone_edit concurrent_greater

sums_differ : sum (values laptop_edit.counters) ≢ sum (values phone_edit.counters)
unfolding sum values ◌+ℤ◌
sums_differ h =
    cc ((eqb_ℤ_iff (sum (values laptop_edit.counters)) (sum (values phone_edit.counters))).1 h)

prefixes_differ : first_chars 8 "phone000-1" ≢ first_chars 8 "laptop00-1"
unfolding first_chars
prefixes_differ h = cc ((eq_iff (first_chars 8 "phone000-1") (first_chars 8 "laptop00-1")).1 h)
