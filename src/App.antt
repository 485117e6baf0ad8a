-- ===== src/App.antt =====
-- src/main.py: start, run and end of the program. The components are modelled in their own modules; what
-- a call of one comes to is a parameter here, which may depend on the calls before. Times are in
-- milliseconds.
pub mod Refresh
pub mod Shutdown
pub mod Start
pub mod Main
mod Tests
use obsidian_sync.Base.{ℕ, String, Bool, List, ◌∷◌}
use obsidian_sync.Reconcile.{Action}

-- the calls that `main.py` makes, each when it is made, however it ends
pub data Event : Type 0 where
  authenticated tombstones_checked state_loaded intents_replayed : Event
  -- `Reconciler.run` if true, and `run_without_state` if false
  reconciled : Bool → Event
  executed : Action → Event
  watcher_started poller_started watcher_stopped poller_stopped : Event
  poll_awaited poll_cancelled engine_drained state_saved shutdown_requested : Event
  -- the coordinator's lock
  lock_taken lock_released : Event

-- how a call ends: with a result or with an exception
pub data Result (A : Type 0) : Type 0 where
  ok : A → Result A
  file_not_found permission_denied token_invalid error : Result A

-- how `wait_for(poll_task)` ends
pub data PollEnd : Type 0 where
  finished timed_out cancelled failed : PollEnd

-- the events so far, the last one first
abbrev pub Log : Type 0
Log = List Event

-- The components: how each call ends, after the events before. `engine_locked` is `engine.lock` at a
-- turn of the loop that waits for it, and `clock` the time at that turn.
pub record Parts : Type 0 where
  pub authenticate : Log → Result (Unit {0})
  pub ensure_tombstones : Log → Result String
  pub load : Log → Result Bool
  pub replay_intents : Log → Result ℕ
  pub reconcile : Bool → Log → Result (List Action)
  pub execute : Action → Log → Result (Unit {0})
  pub start_watcher : Log → Result (Unit {0})
  pub stop_watcher : Log → Result (Unit {0})
  pub stop_poller : Log → Result (Unit {0})
  pub await_poll : Log → PollEnd
  pub engine_locked : Log → ℕ → Bool
  pub clock : Log → ℕ → ℕ
  pub save : Log → Result (Unit {0})

abbrev pub App : Type 0 → Type 0
App A = Log → Log × Result A

abbrev pub and_then : {A B : Type 0} → Log × Result A → (A → App B) → Log × Result B
and_then (log, ok a) f = f a log
and_then (log, file_not_found) f = (log, file_not_found)
and_then (log, permission_denied) f = (log, permission_denied)
and_then (log, token_invalid) f = (log, token_invalid)
and_then (log, error) f = (log, error)

infixl 5 ◌>>=◌ ◌>>◌
abbrev pub ◌>>=◌ : {A B : Type 0} → App A → (A → App B) → App B
◌>>=◌ m f log = and_then (m log) f

abbrev pub ◌>>◌ : {A B : Type 0} → App A → App B → App B
m >> k = m >>= λ _. k

abbrev pub pure : {A : Type 0} → A → App A
pure a log = (log, ok a)

-- a call of a component
abbrev pub call : {A : Type 0} → Event → (Log → Result A) → App A
call event ending log = (event ∷ log, ending log)

-- `try` around a part: its end as a value
abbrev pub attempt : {A : Type 0} → App A → App (Result A)
attempt m log = ((m log).0, ok (m log).1)
