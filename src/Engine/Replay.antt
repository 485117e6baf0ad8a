-- ===== src/Engine/Replay.antt =====
-- src/sync_engine.py: `replay_intents`, the engine as the executor of `IntentLog.replay`.
pub mod Turn
pub mod Renewed
use obsidian_sync.Base.{ℕ, String, Bool, not, List, [], ◌∷◌, Dict}
use obsidian_sync.Reconcile.Actions.{SyncAction}
use obsidian_sync.Intent.{Log, State, replay}
use obsidian_sync.Engine.{Engine, Ending, run_action}

module _ (new_id : Log SyncAction → String) (perform : SyncAction → Engine → Engine × Ending)
    (now : Engine → ℕ) where
  -- the engine that a replay works on: its log is the one that is replayed
  abbrev pub engine_of : State SyncAction Engine → Engine
  engine_of s = record s.world { log = s.log }

  -- `_run_action` as the executor
  unfoldable pub execute_intent :
      SyncAction → State SyncAction Engine → State SyncAction Engine × Bool
  unfolding run_action
  execute_intent action s =
      let (e, raised) = run_action new_id perform now action (engine_of s) in
      (record { log = e.log; world = e }, not raised)

  -- the engine, and the number of intents replayed
  unfoldable pub replay_intents : Engine → Engine × ℕ
  unfolding execute_intent replay
  replay_intents e =
      let (s, replayed) = replay execute_intent (record { log = e.log; world = e }) in
      (engine_of s, replayed)
