-- ===== src/Intent/Compact.antt =====
-- Compaction loses no unresolved intent.
use obsidian_sync.Base.{
  suc, ◌+◌, ◌≤◌, String, false, ◌≡◌, refl, ap, none, some, List, [], ◌∷◌, Dict, insert, contains,
  keys, Distinct, insert-Distinct, insert_all, insert_all-Fresh, Fresh-nil, length, arith,
  Bool-cases, inl, inr,
}
use obsidian_sync.Intent.{
  Line, recorded_line, resolved_line, other_line, corrupt_line, Log, lines_of, recorded_in,
  resolved_in, without_keys, get_unresolved, record_lines, compacted, compact, count_lines,
}

module _ {ℓ} {A : Type ℓ} where
  recorded_in-Distinct :
      (acc : Dict A) (xs : List (Line A)) → Distinct acc → Distinct (recorded_in acc xs)
  unfolding recorded_in
  recorded_in-Distinct acc [] u = u
  recorded_in-Distinct acc (recorded_line id a ∷ xs) u =
      recorded_in-Distinct (insert id a acc) xs (insert-Distinct id a acc u)
  recorded_in-Distinct acc (resolved_line id ∷ xs) u = recorded_in-Distinct acc xs u
  recorded_in-Distinct acc (other_line ∷ xs) u = recorded_in-Distinct acc xs u
  recorded_in-Distinct acc (corrupt_line ∷ xs) u = recorded_in-Distinct acc xs u

  without_keys-absent :
      (ids : List String) (d : Dict A) (k : String)
      → contains (keys d) k ≡ false
      → contains (keys (without_keys ids d)) k ≡ false
  unfolding without_keys contains keys
  without_keys-absent ids [] k h = refl
  without_keys-absent ids ((j, v) ∷ d) k h = ground (arith, without_keys-absent ids d k)

  without_keys-Distinct :
      (ids : List String) (d : Dict A) → Distinct d → Distinct (without_keys ids d)
  unfolding without_keys
  without_keys-Distinct ids [] u = tt
  without_keys-Distinct ids ((k, v) ∷ d) u = elim (Bool-cases (contains ids k)) [
    | inl out ↦ rw out (without_keys-Distinct ids d u.1)
    | inr kept ↦ rw kept (without_keys-absent ids d k u.0, without_keys-Distinct ids d u.1)
  ]

  pub get_unresolved-Distinct : (log : Log A) → Distinct (get_unresolved log)
  unfolding get_unresolved
  get_unresolved-Distinct log =
      without_keys-Distinct (resolved_in (lines_of log)) (recorded_in [] (lines_of log))
        (recorded_in-Distinct [] (lines_of log) tt)

  recorded_in-record_lines : (acc d : Dict A) → recorded_in acc (record_lines d) ≡ insert_all acc d
  unfolding recorded_in record_lines insert_all
  recorded_in-record_lines acc [] = refl
  recorded_in-record_lines acc ((id, a) ∷ d) = recorded_in-record_lines (insert id a acc) d

  resolved_in-record_lines : (d : Dict A) → resolved_in (record_lines d) ≡ []
  unfolding resolved_in record_lines
  resolved_in-record_lines [] = refl
  resolved_in-record_lines ((id, a) ∷ d) = resolved_in-record_lines d

  without_keys-none : (d : Dict A) → without_keys [] d ≡ d
  unfolding without_keys contains
  without_keys-none [] = refl
  without_keys-none ((k, v) ∷ d) = ap (◌∷◌ (k, v)) (without_keys-none d)

  get_unresolved-record_lines :
      (d : Dict A) → Distinct d → get_unresolved (some (record_lines d)) ≡ d
  unfolding get_unresolved
  get_unresolved-record_lines d u =
      rw
        (
          resolved_in-record_lines d,
          recorded_in-record_lines [] d,
          insert_all-Fresh [] d u (Fresh-nil A d),
        )
        (without_keys-none d)

  get_unresolved-compacted :
      (d : Dict A) (log : Log A) → Distinct d → get_unresolved (compacted d log) ≡ d
  unfolding compacted
  get_unresolved-compacted [] none u =
      unfold get_unresolved recorded_in resolved_in without_keys in refl
  get_unresolved-compacted [] (some lines) u =
      unfold get_unresolved recorded_in resolved_in without_keys in refl
  get_unresolved-compacted (e ∷ d) log u = get_unresolved-record_lines (e ∷ d) u

  length-insert-le : (k : String) (v : A) (d : Dict A) → length (insert k v d) ≤ suc (length d)
  unfolding insert
  length-insert-le k v [] = omega arith
  length-insert-le k v ((j, w) ∷ d) = ground (arith, length-insert-le k v d)

  length-recorded_in-le :
      (acc : Dict A) (xs : List (Line A)) → length (recorded_in acc xs) ≤ length acc + length xs
  unfolding recorded_in
  length-recorded_in-le acc [] = omega arith
  length-recorded_in-le acc (recorded_line id a ∷ xs) =
      omega (arith, length-recorded_in-le (insert id a acc) xs, length-insert-le id a acc)
  length-recorded_in-le acc (resolved_line id ∷ xs) = omega (arith, length-recorded_in-le acc xs)
  length-recorded_in-le acc (other_line ∷ xs) = omega (arith, length-recorded_in-le acc xs)
  length-recorded_in-le acc (corrupt_line ∷ xs) = omega (arith, length-recorded_in-le acc xs)

  length-without_keys-le : (ids : List String) (d : Dict A) → length (without_keys ids d) ≤ length d
  unfolding without_keys
  length-without_keys-le ids [] = omega arith
  length-without_keys-le ids ((k, v) ∷ d) = ground (arith, length-without_keys-le ids d)

  length-get_unresolved-le : (log : Log A) → length (get_unresolved log) ≤ count_lines log
  unfolding get_unresolved count_lines
  length-get_unresolved-le log = omega (
    arith,
    length-without_keys-le (resolved_in (lines_of log)) (recorded_in [] (lines_of log)),
    length-recorded_in-le [] (lines_of log),
  )

  -- Compaction leaves the same unresolved intents in the same order, and reports exactly the lines
  -- that are gone: those reported and the unresolved ones together are the lines before.
  pub compact_keeps :
      (log : Log A)
      → (get_unresolved (compact log).0 ≡ get_unresolved log)
        × ((compact log).1 + length (get_unresolved log) ≡ count_lines log)
  unfolding compact
  compact_keeps log = (
    get_unresolved-compacted (get_unresolved log) log (get_unresolved-Distinct log),
    omega (arith, length-get_unresolved-le log),
  )
