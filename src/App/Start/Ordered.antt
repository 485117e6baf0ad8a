-- ===== src/App/Start/Ordered.antt =====
-- src/main.py: the order of the steps of `run_app`, and what its exit codes mean.
use obsidian_sync.Base.{
  inl, inr, ◌⊎◌, ℕ, zero, suc, ◌≤◌, Bool, false, ◌≡◌, refl, List, [], ◌∷◌, arith,
}
use obsidian_sync.Reconcile.{Action}
use obsidian_sync.App.{
  Event, authenticated, tombstones_checked, state_loaded, intents_replayed, reconciled, executed,
  watcher_started, poller_started, watcher_stopped, poller_stopped, poll_awaited, poll_cancelled,
  engine_drained, state_saved, shutdown_requested, lock_taken, lock_released, Result, ok,
  file_not_found, permission_denied, token_invalid, error, PollEnd, finished, timed_out, cancelled,
  failed, Parts, App, Log, and_then, ◌>>◌, pure, call,
}
use obsidian_sync.App.Refresh.{execute_all, initial_reconcile}
use obsidian_sync.App.Shutdown.{shutdown}
use obsidian_sync.App.Shutdown.Drained.{Ticks, poll_events, shutdown-saves}
use obsidian_sync.App.Start.{
  retry_reconcile, serve, serve_if, reconcile_and_serve, start, start_if, run_app,
}

-- the place of a step
abbrev pub rank : Event → ℕ
rank authenticated = 0
rank tombstones_checked = 1
rank state_loaded = 2
rank intents_replayed = 3
rank (reconciled with_state) = 4
rank (executed action) = 4
rank watcher_started = 5
rank poller_started = 6
rank watcher_stopped = 7
rank poller_stopped = 8
rank poll_awaited = 9
rank poll_cancelled = 9
rank engine_drained = 10
rank state_saved = 11
rank shutdown_requested = 12
rank lock_taken = 12
rank lock_released = 12

-- The steps stand in order, none of them later than the given place.
abbrev pub IsStaged : ℕ → Log → Type 0
IsStaged stage [] = Unit
IsStaged stage (event ∷ log) = (rank event ≤ stage) × IsStaged (rank event) log

IsStaged-later :
    (stage later : ℕ) (log : Log) → stage ≤ later → IsStaged stage log → IsStaged later log
IsStaged-later stage later [] h s = tt
IsStaged-later stage later (event ∷ log) h s = (omega (arith, s.0), s.1)

-- a part that begins at a place leaves the steps in order, at another
abbrev Stages : {A : Type 0} → ℕ → ℕ → App A → Type 0
Stages stage later m = (log : Log) → IsStaged stage log → IsStaged later (m log).0

and_then-IsStaged :
    {A B : Type 0} (stage later : ℕ) (r : Log × Result A) (f : A → App B)
    → stage ≤ later
    → IsStaged stage r.0
    → ((a : A) → Stages stage later (f a))
    → IsStaged later (and_then r f).0
and_then-IsStaged stage later (log, ok a) f h s next = next a log s
and_then-IsStaged stage later (log, file_not_found) f h s next = IsStaged-later stage later log h s
and_then-IsStaged stage later (log, permission_denied) f h s next =
    IsStaged-later stage later log h s
and_then-IsStaged stage later (log, token_invalid) f h s next = IsStaged-later stage later log h s
and_then-IsStaged stage later (log, error) f h s next = IsStaged-later stage later log h s

module _ (parts : Parts) where
  execute_all-IsStaged : (actions : List Action) → Stages 4 4 (execute_all parts actions)
  unfolding execute_all
  execute_all-IsStaged [] log s = s
  execute_all-IsStaged (action ∷ actions) log s =
      and_then-IsStaged 4 4 (call (executed action) (parts.execute action) log)
        (λ _. execute_all parts actions) (omega arith) (omega arith, s)
        (λ _. execute_all-IsStaged actions)

  initial_reconcile-IsStaged : (with_state : Bool) → Stages 4 4 (initial_reconcile parts with_state)
  unfolding initial_reconcile
  initial_reconcile-IsStaged with_state log s =
      and_then-IsStaged 4 4 (call (reconciled with_state) (parts.reconcile with_state) log)
        (execute_all parts) (omega arith) (omega arith, s) execute_all-IsStaged

  -- the last step is the loading of the state, or the start of the watcher
  abbrev pub LastStart : Log → Type 0
  LastStart log =
      (before : Log) × ((log ≡ watcher_started ∷ before) ⊎ (log ≡ state_loaded ∷ before))
      × IsStaged 5 log

  -- what the end of the program says of its steps
  abbrev pub Ended : Log × Result ℕ → Type 0
  Ended (log, ok zero) =
      (before : Log) × (log ≡ state_saved ∷ engine_drained ∷ before) × IsStaged 11 log
  Ended (log, ok (suc code)) = (code ≡ 0) × IsStaged 4 log
  Ended (log, file_not_found) = LastStart log
  Ended (log, permission_denied) = LastStart log
  Ended (log, token_invalid) = LastStart log
  Ended (log, error) = LastStart log

  shut-IsStaged :
      (end : PollEnd) (log : Log)
      → IsStaged 4 log
      → IsStaged 11 (
          state_saved
          ∷ engine_drained
          ∷ poll_events end
              (poller_stopped ∷ watcher_stopped ∷ poller_started ∷ watcher_started ∷ log))
  shut-IsStaged finished log s = grind (arith, IsStaged-later 4 5 log (omega arith) s)
  shut-IsStaged timed_out log s = grind (arith, IsStaged-later 4 5 log (omega arith) s)
  shut-IsStaged cancelled log s = grind (arith, IsStaged-later 4 5 log (omega arith) s)
  shut-IsStaged failed log s = grind (arith, IsStaged-later 4 5 log (omega arith) s)

  -- what `serve` makes of the start of the watcher
  served :
      ((l : Log) → Ticks (parts.clock l))
      → (started : Result (Unit {0})) (log : Log) → IsStaged 4 log
      → Ended (
          and_then
            (watcher_started ∷ log, started)
            (λ _. call poller_started (λ _. ok tt) >> (shutdown parts >> pure 0)))
  served ticks (ok done) log s =
      rw (shutdown-saves parts (poller_started ∷ watcher_started ∷ log) ticks)
        (_, refl, shut-IsStaged (parts.await_poll _) log s)
  served ticks file_not_found log s =
      (log, inl refl, (omega arith, IsStaged-later 4 5 log (omega arith) s))
  served ticks permission_denied log s =
      (log, inl refl, (omega arith, IsStaged-later 4 5 log (omega arith) s))
  served ticks token_invalid log s =
      (log, inl refl, (omega arith, IsStaged-later 4 5 log (omega arith) s))
  served ticks error log s = (log, inl refl, (omega arith, IsStaged-later 4 5 log (omega arith) s))

  serve_if-Ended :
      ((l : Log) → Ticks (parts.clock l))
      → (r : Result (Unit {0})) (log : Log) → IsStaged 4 log
      → Ended (serve_if parts r log)
  unfolding serve_if serve
  serve_if-Ended ticks (ok done) log s = served ticks (parts.start_watcher log) log s
  serve_if-Ended ticks file_not_found log s = (refl, s)
  serve_if-Ended ticks permission_denied log s = (refl, s)
  serve_if-Ended ticks token_invalid log s = (refl, s)
  serve_if-Ended ticks error log s = (refl, s)

  retried :
      ((l : Log) → Ticks (parts.clock l))
      → (first : Result (Unit {0})) (log : Log) → IsStaged 4 log
      → Ended (and_then (retry_reconcile parts first log) (serve_if parts))
  unfolding retry_reconcile
  retried ticks (ok done) log s = serve_if-Ended ticks (ok done) log s
  retried ticks token_invalid log s =
      let again = initial_reconcile parts false log in
      serve_if-Ended ticks again.1 again.0 (initial_reconcile-IsStaged false log s)
  retried ticks file_not_found log s = serve_if-Ended ticks file_not_found log s
  retried ticks permission_denied log s = serve_if-Ended ticks permission_denied log s
  retried ticks error log s = serve_if-Ended ticks error log s

  load-Ended :
      ((l : Log) → Ticks (parts.clock l))
      → (r : Result Bool) (log : Log) → IsStaged 1 log
      → Ended (and_then (state_loaded ∷ log, r) (reconcile_and_serve parts))
  unfolding reconcile_and_serve
  load-Ended ticks (ok loaded) log s =
      let ready : Log = intents_replayed ∷ state_loaded ∷ log in
      let first = initial_reconcile parts loaded ready in
      retried ticks first.1 first.0 (
        initial_reconcile-IsStaged loaded ready
          (omega arith, (omega arith, IsStaged-later 1 2 log (omega arith) s)))
  load-Ended ticks file_not_found log s =
      (log, inr refl, (omega arith, IsStaged-later 1 2 log (omega arith) s))
  load-Ended ticks permission_denied log s =
      (log, inr refl, (omega arith, IsStaged-later 1 2 log (omega arith) s))
  load-Ended ticks token_invalid log s =
      (log, inr refl, (omega arith, IsStaged-later 1 2 log (omega arith) s))
  load-Ended ticks error log s =
      (log, inr refl, (omega arith, IsStaged-later 1 2 log (omega arith) s))

  start_if-Ended :
      ((l : Log) → Ticks (parts.clock l))
      → (signed_in : Result (Unit {0})) → Ended (start_if parts signed_in (authenticated ∷ []))
  unfolding start_if start
  start_if-Ended ticks (ok done) =
      let checked : Log = tombstones_checked ∷ authenticated ∷ [] in
      load-Ended ticks (parts.load checked) checked (omega arith)
  start_if-Ended ticks file_not_found = (refl, omega arith)
  start_if-Ended ticks permission_denied = (refl, omega arith)
  start_if-Ended ticks token_invalid = (refl, omega arith)
  start_if-Ended ticks error = (refl, omega arith)

  -- `run_app` takes its steps in order: the authentication, the tombstones folder, the state, the
  -- replay of the intents, the reconciliation with its actions, the watcher, the poller, and the end of
  -- the program. It returns 0 or 1, or passes an exception on. With 0 the engine has been waited for and
  -- the state's saving called last; with 1 neither the watcher nor the poller has been started, and no
  -- saving called; an exception is that of the state's loading or of the watcher's start, which is the
  -- last step then, and no saving is called either.
  pub run_app-Ended : ((l : Log) → Ticks (parts.clock l)) → Ended (run_app parts [])
  unfolding run_app
  run_app-Ended ticks = start_if-Ended ticks (parts.authenticate [])
