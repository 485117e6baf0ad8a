-- ===== src/Vector/Trim.antt =====
-- `trim` keeps the largest counters.
use mathlib.Core.List.{Perm, append-nil}
use mathlib.Core.List.Perm
use obsidian_sync.Base.{
  ℕ, zero, suc, ◌≤◌, String, ◌≡◌, refl, ap, ◌∙◌, ◌⊎◌, inl, inr, List, [], ◌∷◌, ◌++◌, ℤ, ◌≤ℤ◌, leb,
  leb_ℤ, leb_ℤ_iff, leb_ℤ_false, ≤ℤ_trans, Dict, length, arith, Bool-cases, leb→le,
}
use obsidian_sync.Vector.{VersionVector, insert_by_value, sort_by_value, take, trim}

-- every value of the list is at most `n`
abbrev AllBelow : ℤ → Dict ℤ → Type 0
AllBelow n [] = Unit
AllBelow n (e ∷ d) = (e.1 ≤ℤ n) × AllBelow n d

abbrev Falls : Dict ℤ → Type 0
Falls [] = Unit
Falls (e ∷ d) = AllBelow e.1 d × Falls d

-- every value of `d` is at most every value of `kept`
abbrev pub AllAbove : Dict ℤ → Dict ℤ → Type 0
AllAbove [] d = Unit
AllAbove (e ∷ kept) d = AllBelow e.1 d × AllAbove kept d

AllBelow-weaken : (m n : ℤ) (d : Dict ℤ) → m ≤ℤ n → AllBelow m d → AllBelow n d
AllBelow-weaken m n [] h b = tt
AllBelow-weaken m n (e ∷ d) h b = (≤ℤ_trans e.1 m n b.0 h, AllBelow-weaken m n d h b.1)

insert_by_value-AllBelow :
    (n : ℤ) (e : String × ℤ) (d : Dict ℤ)
    → e.1 ≤ℤ n
    → AllBelow n d
    → AllBelow n (insert_by_value e d)
unfolding insert_by_value
insert_by_value-AllBelow n e [] h b = (h, tt)
insert_by_value-AllBelow n e (f ∷ d) h b = elim (Bool-cases (leb_ℤ f.1 e.1)) [
  | inl le ↦ rw le (h, b)
  | inr gt ↦ rw gt (b.0, insert_by_value-AllBelow n e d h b.1)
]

insert_by_value-Falls : (e : String × ℤ) (d : Dict ℤ) → Falls d → Falls (insert_by_value e d)
unfolding insert_by_value
insert_by_value-Falls e [] s = (tt, tt)
insert_by_value-Falls e (f ∷ d) s = elim (Bool-cases (leb_ℤ f.1 e.1)) [
  | inl le ↦ let h = (leb_ℤ_iff f.1 e.1).0 le in rw le ((h, AllBelow-weaken f.1 e.1 d h s.0), s)
  | inr gt ↦
      let h = leb_ℤ_false f.1 e.1 gt in
      rw gt (insert_by_value-AllBelow f.1 e d (omega arith) s.0, insert_by_value-Falls e d s.1)
]

sort_by_value-Falls : (d : Dict ℤ) → Falls (sort_by_value d)
unfolding sort_by_value
sort_by_value-Falls [] = tt
sort_by_value-Falls (e ∷ d) = insert_by_value-Falls e (sort_by_value d) (sort_by_value-Falls d)

insert_by_value-perm : (e : String × ℤ) (d : Dict ℤ) → Perm (insert_by_value e d) (e ∷ d)
unfolding insert_by_value
insert_by_value-perm e [] = Perm.refl (e ∷ [])
insert_by_value-perm e (f ∷ d) = elim (Bool-cases (leb_ℤ f.1 e.1)) [
  | inl le ↦ rw le (Perm.refl (e ∷ f ∷ d))
  | inr gt ↦ rw gt (Perm.trans (Perm.cons f (insert_by_value-perm e d)) (Perm.swap e f d))
]

sort_by_value-perm : (d : Dict ℤ) → Perm (sort_by_value d) d
unfolding sort_by_value
sort_by_value-perm [] = Perm.refl []
sort_by_value-perm (e ∷ d) =
    Perm.trans (insert_by_value-perm e (sort_by_value d)) (Perm.cons e (sort_by_value-perm d))

drop {ℓ} : {A : Type ℓ} → ℕ → List A → List A
drop zero xs = xs
drop (suc n) [] = []
drop (suc n) (x ∷ xs) = drop n xs

take-append-drop {ℓ} : {A : Type ℓ} (n : ℕ) (xs : List A) → take n xs ++ drop n xs ≡ xs
unfolding take drop
take-append-drop zero xs = refl
take-append-drop (suc n) [] = refl
take-append-drop (suc n) (x ∷ xs) = ap (◌∷◌ x) (take-append-drop n xs)

pub length-take-le {ℓ} : {A : Type ℓ} (n : ℕ) (xs : List A) → length (take n xs) ≤ n
unfolding take
length-take-le zero xs = omega arith
length-take-le (suc n) [] = omega arith
length-take-le (suc n) (x ∷ xs) = omega (arith, length-take-le n xs)

AllBelow-drop : (n : ℤ) (m : ℕ) (d : Dict ℤ) → AllBelow n d → AllBelow n (drop m d)
unfolding drop
AllBelow-drop n zero d b = b
AllBelow-drop n (suc m) [] b = tt
AllBelow-drop n (suc m) (e ∷ d) b = AllBelow-drop n m d b.1

take-AllAbove-drop : (n : ℕ) (d : Dict ℤ) → Falls d → AllAbove (take n d) (drop n d)
unfolding take drop
take-AllAbove-drop zero d s = tt
take-AllAbove-drop (suc n) [] s = tt
take-AllAbove-drop (suc n) (e ∷ d) s = (AllBelow-drop e.1 n d s.0, take-AllAbove-drop n d s.1)

length-insert_by_value :
    (e : String × ℤ) (d : Dict ℤ) → length (insert_by_value e d) ≡ suc (length d)
unfolding insert_by_value
length-insert_by_value e [] = refl
length-insert_by_value e (f ∷ d) = ground (arith, length-insert_by_value e d)

length-sort_by_value : (d : Dict ℤ) → length (sort_by_value d) ≡ length d
unfolding sort_by_value
length-sort_by_value [] = refl
length-sort_by_value (e ∷ d) =
    length-insert_by_value e (sort_by_value d) ∙ ap suc (length-sort_by_value d)

length-take {ℓ} : {A : Type ℓ} (n : ℕ) (xs : List A) → n ≤ length xs → length (take n xs) ≡ n
unfolding take
length-take zero xs h = refl
length-take (suc n) [] h = absurd (omega arith)
length-take (suc n) (x ∷ xs) h = ap suc (length-take n xs (omega arith))

-- What `trim` does to the counters: at most `max_devices` are kept, kept and dropped counters
-- together are the old ones, no dropped value exceeds a kept one, and the vector is as before or
-- fills the limit.
pub record Trims (max_devices : ℕ) (v w : VersionVector) (dropped : Dict ℤ) : Type 0 where
  pub fits : length w.counters ≤ max_devices
  pub parts : Perm (w.counters ++ dropped) v.counters
  pub largest : AllAbove w.counters dropped
  pub full : (w.counters ≡ v.counters) ⊎ (length w.counters ≡ max_devices)

AllAbove-nil : (kept : Dict ℤ) → AllAbove kept []
AllAbove-nil [] = tt
AllAbove-nil (e ∷ kept) = (tt, AllAbove-nil kept)

-- For every vector and every limit there is a list of dropped counters with these four facts.
pub trim-Trims :
    (max_devices : ℕ) (v : VersionVector)
    → (dropped : Dict ℤ) × Trims max_devices v (trim max_devices v) dropped
unfolding trim
trim-Trims n v = elim (Bool-cases (leb (length v.counters) n)) [
  | inl small ↦ rw small (
    [],
    record {
      fits = leb→le (length v.counters) n small;
      parts = rw append-nil (Perm.refl v.counters);
      largest = AllAbove-nil v.counters;
      full = inl refl;
    },
  )
  | inr large ↦
      let s = sort_by_value v.counters in
      rw large (
        drop n s,
        record {
          fits = length-take-le n s;
          parts = rw take-append-drop (sort_by_value-perm v.counters);
          largest = take-AllAbove-drop n s (sort_by_value-Falls v.counters);
          full = inr (length-take n s (rw (length-sort_by_value v.counters) (ground arith)));
        },
      )
]

-- A vector with enough counters is trimmed to exactly the limit.
pub length-trim :
    (n : ℕ) (v : VersionVector) → n ≤ length v.counters → length (trim n v).counters ≡ n
unfolding trim
length-trim n v h = elim (Bool-cases (leb (length v.counters) n)) [
  | inl small ↦ rw small (ground arith)
  | inr large ↦
      rw large (length-take n (sort_by_value v.counters) (rw (length-sort_by_value v.counters) h))
]
