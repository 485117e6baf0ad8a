-- ===== src/App/Tests.antt =====
-- A program whose first reconciliation finds an invalid token, and whose poller does not stop in time.
use obsidian_sync.Base.{ℕ, ◌+◌, ◌*◌, true, false, ◌≡◌, refl, [], ◌∷◌, ◌++◌, if◌then◌else◌, arith}
use obsidian_sync.Reconcile.{delete_local}
use obsidian_sync.App.{
  lock_taken, lock_released, executed, state_saved, engine_drained, poll_cancelled, poll_awaited,
  poller_stopped, watcher_stopped, poller_started, watcher_started, reconciled, intents_replayed,
  state_loaded, tombstones_checked, authenticated, ok, error, token_invalid, timed_out, Parts,
}
use obsidian_sync.App.Refresh.{locked, refresh}
use obsidian_sync.App.Refresh.Saved.{refreshing, refresh-Saves}
use obsidian_sync.App.Shutdown.{shutdown}
use obsidian_sync.App.Shutdown.Drained.{Ticks, poll_events, shutdown-saves}
use obsidian_sync.App.Start.{run_app}
use obsidian_sync.App.Start.Ordered.{Ended, run_app-Ended}

abbrev clock : ℕ → ℕ
clock turn = 7 + 60 * turn

clock-Ticks : Ticks clock
clock-Ticks turn = omega arith

abbrev parts : Parts
parts = record {
  authenticate = λ log. ok tt;
  ensure_tombstones = λ log. error;
  load = λ log. ok true;
  replay_intents = λ log. ok 1;
  reconcile = λ with_state log. if with_state then token_invalid else ok [];
  execute = λ action log. ok tt;
  start_watcher = λ log. ok tt;
  stop_watcher = λ log. error;
  stop_poller = λ log. ok tt;
  await_poll = λ log. timed_out;
  engine_locked = λ log turn. true;
  clock = λ log. clock;
  save = λ log. ok tt;
}

whole_run : run_app parts [] ≡ (
  state_saved
      ∷ engine_drained
      ∷ poll_cancelled
      ∷ poll_awaited
      ∷ poller_stopped
      ∷ watcher_stopped
      ∷ poller_started
      ∷ watcher_started
      ∷ reconciled false
      ∷ reconciled true
      ∷ intents_replayed
      ∷ state_loaded
      ∷ tombstones_checked
      ∷ authenticated
      ∷ [],
  ok 0,
)
unfolding run_app
whole_run = refl

run_app-Ended_example : Ended parts (run_app parts [])
run_app-Ended_example = run_app-Ended parts (λ l. clock-Ticks)

shutdown-saves_example : shutdown parts [] ≡ (
  state_saved
      ∷ engine_drained
      ∷ poll_events
          (parts.await_poll (poller_stopped ∷ watcher_stopped ∷ []))
          (poller_stopped ∷ watcher_stopped ∷ []),
  ok tt,
)
shutdown-saves_example = shutdown-saves parts [] (λ l. clock-Ticks)

-- another device's action is executed, and the token is found invalid while the lock is held
abbrev renewed : Parts
renewed = record parts { reconcile = λ with_state log. ok (delete_local ∷ []) }

refresh-Saves_example :
    (refresh renewed []
      ≡ (lock_released ∷ (refreshing (ok (delete_local ∷ [])) ++ (lock_taken ∷ [])), ok tt))
    × (refresh renewed (executed delete_local ∷ reconciled false ∷ lock_taken ∷ [])
        ≡ (executed delete_local ∷ reconciled false ∷ lock_taken ∷ [], ok tt))
unfolding locked
refresh-Saves_example =
    refresh-Saves renewed [] (state_saved ∷ []) (executed delete_local ∷ reconciled false ∷ []) refl
      refl
