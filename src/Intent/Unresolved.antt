-- ===== src/Intent/Unresolved.antt =====
-- How the unresolved intents change with each line.
use obsidian_sync.Base.{
  String, false, ◌≡◌, refl, ap, List, [], ◌∷◌, ◌++◌, Dict, insert, contains, keys, remove,
  insert-fresh, contains-append, append-nil, arith, eq_iff,
}
use obsidian_sync.Intent.{
  Line, recorded_line, resolved_line, other_line, corrupt_line, Log, lines_of, record_intent,
  resolve, recorded_in, resolved_in, without_keys, get_unresolved,
}

module _ {ℓ} {A : Type ℓ} where
  recorded_in-append :
      (acc : Dict A) (xs ys : List (Line A))
      → recorded_in acc (xs ++ ys) ≡ recorded_in (recorded_in acc xs) ys
  unfolding recorded_in
  recorded_in-append acc [] ys = refl
  recorded_in-append acc (recorded_line id a ∷ xs) ys = recorded_in-append (insert id a acc) xs ys
  recorded_in-append acc (resolved_line id ∷ xs) ys = recorded_in-append acc xs ys
  recorded_in-append acc (other_line ∷ xs) ys = recorded_in-append acc xs ys
  recorded_in-append acc (corrupt_line ∷ xs) ys = recorded_in-append acc xs ys

  resolved_in-append :
      (xs ys : List (Line A)) → resolved_in (xs ++ ys) ≡ resolved_in xs ++ resolved_in ys
  unfolding resolved_in
  resolved_in-append [] ys = refl
  resolved_in-append (recorded_line id a ∷ xs) ys = resolved_in-append xs ys
  resolved_in-append (resolved_line id ∷ xs) ys = ap (◌∷◌ id) (resolved_in-append xs ys)
  resolved_in-append (other_line ∷ xs) ys = resolved_in-append xs ys
  resolved_in-append (corrupt_line ∷ xs) ys = resolved_in-append xs ys

  without_keys-append :
      (ids : List String) (d e : Dict A)
      → without_keys ids (d ++ e) ≡ without_keys ids d ++ without_keys ids e
  unfolding without_keys
  without_keys-append ids [] e = refl
  without_keys-append ids ((k, v) ∷ d) e = ground (arith, without_keys-append ids d e)

  without_keys-one_more :
      (ids : List String) (id : String) (d : Dict A)
      → without_keys (ids ++ (id ∷ [])) d ≡ remove id (without_keys ids d)
  unfolding without_keys remove contains
  without_keys-one_more ids id [] = refl
  without_keys-one_more ids id ((k, v) ∷ d) = ground (
    arith,
    without_keys-one_more ids id d,
    contains-append ids (id ∷ []) k,
    eq_iff id k,
    eq_iff k id,
  )

  -- A recorded intent is unresolved until it is resolved: recording one with a new id adds it at the
  -- end, and changes no other.
  pub get_unresolved-record :
      (log : Log A) (id : String) (action : A)
      → contains (keys (recorded_in [] (lines_of log))) id ≡ false
      → contains (resolved_in (lines_of log)) id ≡ false
      → get_unresolved (record_intent id action log) ≡ get_unresolved log ++ ((id, action) ∷ [])
  unfolding get_unresolved record_intent
  get_unresolved-record log id action new_id unresolved =
      let lines = lines_of log in
      let ids = resolved_in lines in
      let recorded = recorded_in [] lines in
      rw (
        recorded_in-append [] lines (recorded_line id action ∷ []),
        resolved_in-append lines (recorded_line id action ∷ []),
        append-nil ids,
        insert-fresh id action recorded new_id,
        without_keys-append ids recorded ((id, action) ∷ []),
        unresolved,
      )

  -- Resolving an intent removes it from the unresolved ones, and no other.
  pub get_unresolved-resolve :
      (log : Log A) (id : String) → get_unresolved (resolve id log) ≡ remove id (get_unresolved log)
  unfolding get_unresolved resolve
  get_unresolved-resolve log id =
      let lines = lines_of log in
      rw
        (
          recorded_in-append [] lines (resolved_line id ∷ []),
          resolved_in-append lines (resolved_line id ∷ []),
        )
        (without_keys-one_more (resolved_in lines) id (recorded_in [] lines))
