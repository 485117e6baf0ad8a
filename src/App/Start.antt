-- ===== src/App/Start.antt =====
-- src/main.py: `run_app`. The exceptions that are not `Exception`s, of a cancelled task or an
-- interrupt, do not arise before the wait for the shutdown event, and are its end there.
pub mod Ordered
use obsidian_sync.Base.{ℕ, Bool, true, false, List, [], ◌∷◌}
use obsidian_sync.App.{
  Event, authenticated, tombstones_checked, state_loaded, intents_replayed, watcher_started,
  poller_started, Result, ok, file_not_found, permission_denied, token_invalid, error, Parts, App,
  Log, and_then, ◌>>=◌, ◌>>◌, pure, call, attempt,
}
use obsidian_sync.App.Refresh.{initial_reconcile}
use obsidian_sync.App.Shutdown.{shutdown}

module _ (parts : Parts) where
  -- a reconciliation with the state that the token ends is tried again without it
  unfoldable pub retry_reconcile : Result (Unit {0}) → App (Result (Unit {0}))
  unfolding initial_reconcile
  retry_reconcile (ok done) = pure (ok done)
  retry_reconcile token_invalid = attempt (initial_reconcile parts false)
  retry_reconcile file_not_found = pure file_not_found
  retry_reconcile permission_denied = pure permission_denied
  retry_reconcile error = pure error

  -- the watcher and the poller run until the shutdown event is set or the task is cancelled
  unfoldable pub serve : App ℕ
  unfolding shutdown
  serve = do
    call watcher_started parts.start_watcher
    call poller_started (λ _. ok tt)
    shutdown parts
    pure 0

  -- after the initial reconciliation
  unfoldable pub serve_if : Result (Unit {0}) → App ℕ
  unfolding serve
  serve_if (ok done) = serve
  serve_if file_not_found = pure 1
  serve_if permission_denied = pure 1
  serve_if token_invalid = pure 1
  serve_if error = pure 1

  -- after the state was loaded
  unfoldable pub reconcile_and_serve : Bool → App ℕ
  unfolding initial_reconcile retry_reconcile serve_if
  reconcile_and_serve loaded = do
    attempt (call intents_replayed parts.replay_intents)
    first ← attempt (initial_reconcile parts loaded)
    again ← retry_reconcile first
    serve_if again

  -- after the authentication
  unfoldable pub start : App ℕ
  unfolding reconcile_and_serve
  start = do
    attempt (call tombstones_checked parts.ensure_tombstones)
    loaded ← call state_loaded parts.load
    reconcile_and_serve loaded

  unfoldable pub start_if : Result (Unit {0}) → App ℕ
  unfolding start
  start_if (ok done) = start
  start_if file_not_found = pure 1
  start_if permission_denied = pure 1
  start_if token_invalid = pure 1
  start_if error = pure 1

  unfoldable pub run_app : App ℕ
  unfolding start_if
  run_app = do signed_in ← attempt (call authenticated parts.authenticate); start_if signed_in
