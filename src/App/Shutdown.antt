-- ===== src/App/Shutdown.antt =====
-- src/main.py: `wait_engine_idle` and `shutdown`.
pub mod Drained
use obsidian_sync.Base.{
  ℕ, zero, suc, ◌+◌, Bool, true, false, Option, none, some, List, [], ◌∷◌, ltb, if◌then◌else◌,
}
use obsidian_sync.App.{
  Event, watcher_stopped, poller_stopped, poll_awaited, poll_cancelled, engine_drained, state_saved,
  Result, ok, file_not_found, permission_denied, token_invalid, error, PollEnd, finished, timed_out,
  cancelled, failed, Parts, App, Log, and_then, ◌>>=◌, ◌>>◌, pure, call, attempt,
}

abbrev pub engine_drain_timeout : ℕ
engine_drain_timeout = 5000

abbrev pub engine_drain_poll_interval : ℕ
engine_drain_poll_interval = 50

-- how the wait for the engine ends
pub data Idle : Type 0 where
  idle given_up : Idle

-- The loop from a turn on; `none` if the fuel is too little.
unfoldable pub wait_turns : (ℕ → Bool) → (ℕ → ℕ) → ℕ → ℕ → ℕ → Option (Idle × ℕ)
wait_turns locked now deadline zero turn = none
wait_turns locked now deadline (suc fuel) turn =
    let rest = wait_turns locked now deadline fuel (turn + 1) in
    if locked turn
    then (if ltb deadline (now turn) then some (given_up, turn) else rest)
    else some (idle, turn)

unfoldable pub wait_engine_idle : (ℕ → Bool) → (ℕ → ℕ) → Option (Idle × ℕ)
unfolding wait_turns
wait_engine_idle locked now = wait_turns locked now (now 0 + engine_drain_timeout) 102 0

module _ (parts : Parts) where
  -- what follows the wait for the poller's task: after a timeout it is cancelled and awaited again
  unfoldable pub poll_ended : PollEnd → App (Unit {0})
  poll_ended finished = pure tt
  poll_ended timed_out = call poll_cancelled (λ _. ok tt)
  poll_ended cancelled = pure tt
  poll_ended failed = pure tt

  unfoldable pub await_poll_task : App (Unit {0})
  unfolding poll_ended
  await_poll_task log = poll_ended (parts.await_poll log) (poll_awaited ∷ log)

  -- the wait for the engine, whichever way it ends
  unfoldable pub drain_engine : App (Unit {0})
  unfolding wait_engine_idle
  drain_engine log = elim (wait_engine_idle (parts.engine_locked log) (parts.clock log)) [
    | none ↦ (log, error)
    | some ended ↦ (engine_drained ∷ log, ok tt)
  ]

  unfoldable pub shutdown : App (Unit {0})
  unfolding await_poll_task drain_engine
  shutdown = do
    attempt (call watcher_stopped parts.stop_watcher)
    attempt (call poller_stopped parts.stop_poller)
    await_poll_task
    drain_engine
    attempt (call state_saved parts.save)
    pure tt
