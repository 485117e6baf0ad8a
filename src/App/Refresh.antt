-- ===== src/App/Refresh.antt =====
-- src/main.py: `TokenRefreshCoordinator`, and `initial_reconcile`.
pub mod Saved
use obsidian_sync.Base.{◌∷◌, if◌then◌else◌, Option, some, none, ℕ, Bool, true, false, List, []}
use obsidian_sync.Reconcile.{Action}
use obsidian_sync.App.{
  Event, lock_taken, lock_released, reconciled, executed, state_saved, shutdown_requested, Result,
  ok, file_not_found, permission_denied, token_invalid, error, Parts, App, Log, and_then, ◌>>=◌,
  ◌>>◌, pure, call, attempt,
}

-- whether a call takes or releases the lock
unfoldable pub lock_change : Event → Option Bool
lock_change lock_taken = some true
lock_change lock_released = some false
lock_change _ = none

-- `self._lock.locked()`, after these calls
unfoldable pub locked : Log → Bool
unfolding lock_change
locked [] = false
locked (event ∷ log) = elim (lock_change event) [ none ↦ locked log | some held ↦ held ]

module _ (parts : Parts) where
  -- the loop of `initial_reconcile` over the actions, which an exception ends
  unfoldable pub execute_all : List Action → App (Unit {0})
  execute_all [] = pure tt
  execute_all (action ∷ actions) = do
    call (executed action) (parts.execute action)
    execute_all actions

  unfoldable pub initial_reconcile : Bool → App (Unit {0})
  unfolding execute_all
  initial_reconcile state_loaded = do
    actions ← call (reconciled state_loaded) (parts.reconcile state_loaded)
    execute_all actions

  -- the coordinator's loop, which an exception of one action does not end
  unfoldable pub execute_each : List Action → App (Unit {0})
  execute_each [] = pure tt
  execute_each (action ∷ actions) = do
    attempt (call (executed action) (parts.execute action))
    execute_each actions

  -- what follows `run_without_state`
  unfoldable pub refresh_with : Result (List Action) → App (Unit {0})
  unfolding execute_each
  refresh_with (ok actions) = do
    execute_each actions
    attempt (call state_saved parts.save)
    pure tt
  refresh_with file_not_found = call shutdown_requested (λ _. ok tt)
  refresh_with permission_denied = call shutdown_requested (λ _. ok tt)
  refresh_with token_invalid = call shutdown_requested (λ _. ok tt)
  refresh_with error = call shutdown_requested (λ _. ok tt)

  -- `async with self._lock`, from the taking of the lock on
  unfoldable pub locked_refresh : App (Unit {0})
  unfolding refresh_with
  locked_refresh = do
    found ← attempt (call (reconciled false) (parts.reconcile false))
    refresh_with found

  -- the end of the block, however it ends
  unfoldable pub release : Log × Result (Unit {0}) → Log × Result (Unit {0})
  release (log, result) = (lock_released ∷ log, result)

  -- `__call__`
  unfoldable pub refresh : App (Unit {0})
  unfolding locked locked_refresh release
  refresh log = if locked log then (log, ok tt) else release (locked_refresh (lock_taken ∷ log))
