-- ===== src/Engine/Run.antt =====
-- What the log holds after an action: the write-ahead rule.
use text.Mathlib.TextPositions.{eq_refl}
use obsidian_sync.Base.{
  ℕ, String, false, ◌≡◌, refl, ap, ◌∙◌, List, [], ◌∷◌, ◌++◌, Dict, keys, contains, remove, arith,
}
use obsidian_sync.Reconcile.Actions.{SyncAction}
use obsidian_sync.Intent.{
  Log, lines_of, record_intent, resolve, recorded_in, resolved_in, without_keys, get_unresolved,
}
use obsidian_sync.Intent.Unresolved.{get_unresolved-record, get_unresolved-resolve}
use obsidian_sync.Engine.{
  Engine, Ending, done, token_invalid, not_found, failed, concluded, run_action,
}

-- the unresolved intents that an ending leaves
abbrev pub intents_after : Ending → String → SyncAction → Dict SyncAction → Dict SyncAction
intents_after done id action unresolved = unresolved
intents_after _ id action unresolved = unresolved ++ ((id, action) ∷ [])

-- the id stands in no line of the log
abbrev pub IsNew : String → Log SyncAction → Type 0
IsNew id log =
    (contains (keys (recorded_in [] (lines_of log))) id ≡ false)
    × (contains (resolved_in (lines_of log)) id ≡ false)

module _ {ℓ} {A : Type ℓ} where
  remove_last :
      (id : String) (a : A) (d : Dict A)
      → contains (keys d) id ≡ false
      → remove id (d ++ ((id, a) ∷ [])) ≡ d
  unfolding remove keys contains
  remove_last id a [] h = rw (eq_refl id)
  remove_last id a ((k, v) ∷ d) h = ground (arith, remove_last id a d)

  absent-without_keys :
      (ids : List String) (d : Dict A) (k : String)
      → contains (keys d) k ≡ false
      → contains (keys (without_keys ids d)) k ≡ false
  unfolding without_keys keys contains
  absent-without_keys ids [] k h = refl
  absent-without_keys ids ((j, v) ∷ d) k h = ground (arith, absent-without_keys ids d k)

-- the engine in which an action is performed: the action is already in the log
abbrev pub logged : (Log SyncAction → String) → SyncAction → Engine → Engine
logged new_id action e = record e { log = record_intent (new_id e.log) action e.log }

module _ (new_id : Log SyncAction → String) (perform : SyncAction → Engine → Engine × Ending)
    (now : Engine → ℕ) (quiet : (a : SyncAction) (e : Engine) → (perform a e).0.log ≡ e.log) where
  recorded_then_resolved :
      (id : String) (action : SyncAction) (log : Log SyncAction)
      → IsNew id log
      → get_unresolved (resolve id (record_intent id action log)) ≡ get_unresolved log
  unfolding get_unresolved
  recorded_then_resolved id action log fresh =
      get_unresolved-resolve (record_intent id action log) id
      ∙ ap (remove id) (get_unresolved-record log id action fresh.0 fresh.1)
      ∙ remove_last id action (get_unresolved log) (
          absent-without_keys (resolved_in (lines_of log)) (recorded_in [] (lines_of log)) id
            fresh.0)

  concluded-intents :
      (ending : Ending) (action : SyncAction) (id : String) (e : Engine) (log : Log SyncAction)
      → e.log ≡ record_intent id action log
      → IsNew id log
      → get_unresolved (concluded new_id perform now action id e ending).0.log
        ≡ intents_after ending id action (get_unresolved log)
  unfolding concluded
  concluded-intents done action id e log h fresh =
      ap (λ l. get_unresolved (resolve id l)) h ∙ recorded_then_resolved id action log fresh
  concluded-intents token_invalid action id e log h fresh =
      ap get_unresolved h ∙ get_unresolved-record log id action fresh.0 fresh.1
  concluded-intents (not_found missing_id) action id e log h fresh =
      ap get_unresolved h ∙ get_unresolved-record log id action fresh.0 fresh.1
  concluded-intents failed action id e log h fresh =
      ap get_unresolved h ∙ get_unresolved-record log id action fresh.0 fresh.1

  -- An action is in the log before it is executed. If executing changes no line of the log and the
  -- new id is in none, then afterwards the unresolved intents are as before if the action ended
  -- normally, and the action is the last of them if it ended with any exception.
  pub run_action-intents :
      (action : SyncAction) (e : Engine)
      → IsNew (new_id e.log) e.log
      → get_unresolved (run_action new_id perform now action e).0.log
        ≡ intents_after
            (perform action (logged new_id action e)).1
            (new_id e.log)
            action
            (get_unresolved e.log)
  unfolding run_action
  run_action-intents action e fresh =
      concluded-intents (perform action (logged new_id action e)).1 action (new_id e.log)
        (perform action (logged new_id action e)).0 e.log (quiet action (logged new_id action e))
        fresh
