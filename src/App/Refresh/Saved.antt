-- ===== src/App/Refresh/Saved.antt =====
-- src/main.py: what the token coordinator does.
use mathlib.Core.List.{reverse, reverse-cons}
use obsidian_sync.Base.{
  true, false, ◌≡◌, refl, sym, ap, subst, ◌∙◌, none, List, [], ◌∷◌, ◌++◌, map, append_assoc,
}
use obsidian_sync.Reconcile.{Action}
use obsidian_sync.App.{
  reconciled, executed, state_saved, shutdown_requested, lock_taken, Result, ok, file_not_found,
  permission_denied, token_invalid, error, Parts, Log, lock_released,
}
use obsidian_sync.App.Refresh.{
  execute_each, refresh_with, locked_refresh, release, refresh, lock_change, locked,
}

-- The calls between the taking and the releasing of the lock, the last one first, by the end of the
-- reconciliation.
abbrev pub refreshing : Result (List Action) → Log
refreshing (ok actions) = state_saved ∷ (reverse (map executed actions) ++ (reconciled false ∷ []))
refreshing file_not_found = shutdown_requested ∷ reconciled false ∷ []
refreshing permission_denied = shutdown_requested ∷ reconciled false ∷ []
refreshing token_invalid = shutdown_requested ∷ reconciled false ∷ []
refreshing error = shutdown_requested ∷ reconciled false ∷ []

execute_each_lem :
    (parts : Parts) (actions : List Action) (log : Log)
    → execute_each parts actions log ≡ (reverse (map executed actions) ++ log, ok tt)
unfolding execute_each
execute_each_lem parts [] log = refl
execute_each_lem parts (action ∷ actions) log =
    execute_each_lem parts actions (executed action ∷ log)
    ∙ ap (λ (l : Log). (l, ok tt))
        (sym (
          ap (λ l. l ++ log) (reverse-cons (executed action) (map executed actions))
          ∙ append_assoc (reverse (map executed actions)) (executed action ∷ []) log))

refresh_with_lem :
    (parts : Parts) (r : Result (List Action)) (log : Log)
    → refresh_with parts r (reconciled false ∷ log) ≡ (refreshing r ++ log, ok tt)
unfolding refresh_with
refresh_with_lem parts (ok actions) log =
    rw (execute_each_lem parts actions (reconciled false ∷ log)) (
      ap (λ (l : Log). (state_saved ∷ l, ok tt))
        (sym (append_assoc (reverse (map executed actions)) (reconciled false ∷ []) log)))
refresh_with_lem parts file_not_found log = refl
refresh_with_lem parts permission_denied log = refl
refresh_with_lem parts token_invalid log = refl
refresh_with_lem parts error log = refl

-- no call takes or releases the lock
IsFree : Log → Type 0
IsFree [] = Unit
IsFree (event ∷ log) = (lock_change event ≡ none) × IsFree log

IsFree-append : (xs ys : Log) → IsFree xs → IsFree ys → IsFree (xs ++ ys)
unfolding IsFree
IsFree-append [] ys h k = k
IsFree-append (x ∷ xs) ys h k = (h.0, IsFree-append xs ys h.1 k)

IsFree-later : (xs ys : Log) → IsFree (xs ++ ys) → IsFree ys
unfolding IsFree
IsFree-later [] ys h = h
IsFree-later (x ∷ xs) ys h = IsFree-later xs ys h.1

executed-IsFree : (actions : List Action) → IsFree (reverse (map executed actions))
unfolding IsFree lock_change
executed-IsFree [] = tt
executed-IsFree (action ∷ actions) =
    subst IsFree (sym (reverse-cons (executed action) (map executed actions))) (
      IsFree-append (reverse (map executed actions)) (executed action ∷ [])
        (executed-IsFree actions) (refl, tt))

refreshing-IsFree : (r : Result (List Action)) → IsFree (refreshing r)
unfolding IsFree lock_change
refreshing-IsFree (ok actions) = (
  refl,
  IsFree-append (reverse (map executed actions)) (reconciled false ∷ []) (executed-IsFree actions)
      (refl, tt),
)
refreshing-IsFree file_not_found = (refl, (refl, tt))
refreshing-IsFree permission_denied = (refl, (refl, tt))
refreshing-IsFree token_invalid = (refl, (refl, tt))
refreshing-IsFree error = (refl, (refl, tt))

locked-free : (xs log : Log) → IsFree xs → locked (xs ++ (lock_taken ∷ log)) ≡ true
unfolding locked IsFree lock_change
locked-free [] log h = refl
locked-free (x ∷ xs) log h = rw (locked, h.0) (locked-free xs log h.1)

-- A refresh that finds the lock free raises nothing. It takes the lock, reconciles once, without the
-- state, and releases the lock at the end. In between, if the reconciliation gives actions, each is
-- executed, in their order and whichever of them fail, and then the state's saving is called; if it
-- fails in any way, no action is executed, nothing is saved and the shutdown is requested. A second
-- refresh at any moment in between, which is after the calls `early`, does nothing.
pub refresh-Saves :
    (parts : Parts) (log late early : Log)
    → locked log ≡ false
    → late ++ early ≡ refreshing (parts.reconcile false (lock_taken ∷ log))
    → (refresh parts log ≡ (
      lock_released ∷ (refreshing (parts.reconcile false (lock_taken ∷ log)) ++ (lock_taken ∷ log)),
      ok tt,
    ))
      × (refresh parts (early ++ (lock_taken ∷ log)) ≡ (early ++ (lock_taken ∷ log), ok tt))
unfolding refresh locked_refresh release
refresh-Saves parts log late early free between =
    let r = parts.reconcile false (lock_taken ∷ log) in
    (
      rw (free, refresh_with_lem parts r (lock_taken ∷ log)) refl,
      rw
          (locked-free early log
            (IsFree-later late early (subst IsFree (sym between) (refreshing-IsFree r))))
          refl,
    )
