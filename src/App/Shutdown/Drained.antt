-- ===== src/App/Shutdown/Drained.antt =====
-- src/main.py: the end of the program waits about five seconds for the engine, and saves the state.
use obsidian_sync.Base.{
  ℕ, zero, suc, ◌+◌, ◌*◌, ◌≤◌, ◌<◌, Bool, true, false, ◌≡◌, refl, ap, inl, inr, Option, some, ◌∷◌,
  ltb, Bool-cases, arith,
}
use obsidian_sync.App.{
  watcher_stopped, poller_stopped, poll_awaited, poll_cancelled, engine_drained, state_saved, ok,
  PollEnd, finished, timed_out, cancelled, failed, Parts, Log,
}
use obsidian_sync.App.Shutdown.{
  Idle, idle, given_up, wait_turns, wait_engine_idle, drain_engine, poll_ended, await_poll_task,
  shutdown,
}

-- a turn takes at least the sleep of its end
abbrev pub Ticks : (ℕ → ℕ) → Type 0
Ticks now = (turn : ℕ) → now turn + 50 ≤ now (turn + 1)

abbrev pub Explains : (ℕ → Bool) → (ℕ → ℕ) → ℕ → Idle → ℕ → Type 0
Explains locked now deadline idle turn = locked turn ≡ false
Explains locked now deadline given_up turn = (locked turn ≡ true) × (deadline < now turn)

Ticks-from : (now : ℕ → ℕ) → Ticks now → (turn : ℕ) → now 0 + 50 * turn ≤ now turn
Ticks-from now ticks zero = omega arith
Ticks-from now ticks (suc turn) =
    let e : turn + 1 ≡ suc turn = omega arith in
    omega (arith, Ticks-from now ticks turn, ticks turn, ap now e)

abbrev Ended : (ℕ → Bool) → (ℕ → ℕ) → ℕ → Option (Idle × ℕ) → Type 0
Ended locked now deadline r =
    (how : Idle) × (turn : ℕ) × (r ≡ some (how, turn))
    × (turn ≤ 101)
    × Explains locked now deadline how turn

wait_turns-ends :
    (locked : ℕ → Bool) (now : ℕ → ℕ) (fuel turn : ℕ)
    → Ticks now
    → fuel + turn ≡ 102
    → turn ≤ 101
    → Ended locked now (now 0 + 5000) (wait_turns locked now (now 0 + 5000) fuel turn)
unfolding wait_turns
wait_turns-ends locked now zero turn ticks e few = absurd (omega arith)
wait_turns-ends locked now (suc fuel) turn ticks e early_turn = elim (Bool-cases (locked turn)) [
  | inl busy ↦ elim (Bool-cases (ltb (now 0 + 5000) (now turn))) [
    | inl late ↦
        (given_up, turn, rw (wait_turns, busy, late) refl, early_turn, (busy, ground (arith, late)))
    | inr early ↦
        let (how, last, found, few, why) =
          wait_turns-ends locked now fuel (turn + 1) ticks (omega arith)
            (ground (arith, early, Ticks-from now ticks turn)) in
        (how, last, rw (wait_turns, busy, early) found, few, why)
  ]
  | inr free ↦ (idle, turn, rw (wait_turns, free) refl, early_turn, free)
]

-- The wait for the engine ends in at most 101 sleeps: at a turn at which the engine is not locked, or
-- at one at which it is and five seconds have passed.
pub wait_engine_idle-ends :
    (locked : ℕ → Bool) (now : ℕ → ℕ)
    → Ticks now
    → (how : Idle) × (turn : ℕ) × (wait_engine_idle locked now ≡ some (how, turn))
      × (turn ≤ 101)
      × Explains locked now (now 0 + 5000) how turn
unfolding wait_engine_idle
wait_engine_idle-ends locked now ticks =
    wait_turns-ends locked now 102 0 ticks (omega arith) (omega arith)

-- what the wait for the poller's task adds to the events
abbrev pub poll_events : PollEnd → Log → Log
poll_events finished log = poll_awaited ∷ log
poll_events timed_out log = poll_cancelled ∷ poll_awaited ∷ log
poll_events cancelled log = poll_awaited ∷ log
poll_events failed log = poll_awaited ∷ log

await_poll_task_lem :
    (parts : Parts) (log : Log)
    → await_poll_task parts log ≡ (poll_events (parts.await_poll log) log, ok tt)
unfolding await_poll_task
await_poll_task_lem parts log = by_end (parts.await_poll log)
  where
    by_end :
        (end : PollEnd) → poll_ended parts end (poll_awaited ∷ log) ≡ (poll_events end log, ok tt)
    by_end finished = refl
    by_end timed_out = refl
    by_end cancelled = refl
    by_end failed = refl

drain_engine_lem :
    (parts : Parts) (log : Log)
    → ((l : Log) → Ticks (parts.clock l))
    → drain_engine parts log ≡ (engine_drained ∷ log, ok tt)
unfolding drain_engine
drain_engine_lem parts log ticks =
    let (how, turn, e, few, why) =
      wait_engine_idle-ends (parts.engine_locked log) (parts.clock log) (ticks log) in
    rw (drain_engine, e) refl

-- The end of the program ends, with no exception, whichever way the calls in it end: the watcher and
-- the poller are stopped, the poller's task is awaited and after a timeout cancelled, the engine is
-- waited for, and the last step is the call that saves the state.
pub shutdown-saves :
    (parts : Parts) (log : Log)
    → ((l : Log) → Ticks (parts.clock l))
    → let stopped : Log = poller_stopped ∷ watcher_stopped ∷ log in
      shutdown parts log
      ≡ (state_saved ∷ engine_drained ∷ poll_events (parts.await_poll stopped) stopped, ok tt)
unfolding shutdown
shutdown-saves parts log ticks =
    let stopped : Log = poller_stopped ∷ watcher_stopped ∷ log in
    rw
      (
        await_poll_task_lem parts stopped,
        drain_engine_lem parts (poll_events (parts.await_poll stopped) stopped) ticks,
      )
      refl
