-- ===== src/Engine/Replay/Renewed.antt =====
-- src/sync_engine.py, src/intent_log.py: what a replay by the engine leaves in the log.
use obsidian_sync.Base.{
  ℕ, ◌+◌, String, ◌≡◌, refl, sym, ap, subst, ◌∙◌, [], ◌∷◌, ◌++◌, append-nil, map, Dict, length,
  if◌then◌else◌, arith,
}
use obsidian_sync.Reconcile.Actions.{SyncAction}
use obsidian_sync.Intent.{Log, State, get_unresolved, replay, replay_all}
use obsidian_sync.Engine.{Engine, Ending}
use obsidian_sync.Engine.Run.{intents_after, IsNew, run_action-intents}
use obsidian_sync.Engine.Site.{Site}
use obsidian_sync.Engine.Perform.{perform}
use obsidian_sync.Engine.Untouched.{perform-loop}
use obsidian_sync.Engine.Replay.{engine_of, execute_intent, replay_intents}
use obsidian_sync.Engine.Replay.Turn.{
  kept_lines, unfinished, one_turn, ending_at, endings, AllNew, Leaves, pre_after, executed-raised,
  one_turn-log, after_turn, after_rest,
}

module _ (new_id : Log SyncAction → String) (perform : SyncAction → Engine → Engine × Ending)
    (now : Engine → ℕ) (quiet : (a : SyncAction) (e : Engine) → (perform a e).0.log ≡ e.log) where
  one_turn-intents :
      (pre d post : Dict SyncAction) (id : String) (action : SyncAction)
      (s : State SyncAction Engine)
      → IsNew (new_id s.log) s.log
      → get_unresolved s.log ≡ pre ++ ((id, action) ∷ (d ++ post))
      → get_unresolved (one_turn new_id perform now id action s).log
        ≡ pre_after new_id perform now (ending_at new_id perform now action s) id action pre
          ++ (d ++ intents_after (ending_at new_id perform now action s) (new_id s.log) action post)
  unfolding execute_intent
  one_turn-intents pre d post id action s fresh h =
      ap get_unresolved (one_turn-log new_id perform now id action s)
      ∙ after_turn new_id perform now (ending_at new_id perform now action s) pre d post id
          (new_id s.log) action s.log (execute_intent new_id perform now action s).0.log h
          (run_action-intents new_id perform now quiet action (engine_of new_id perform now s)
            fresh)

  replay_all-Leaves :
      (pre d post : Dict SyncAction) (s : State SyncAction Engine)
      → AllNew new_id perform now d s
      → get_unresolved s.log ≡ pre ++ (d ++ post)
      → Leaves new_id perform now pre d
          (endings new_id perform now d s)
          post
          (replay_all (execute_intent new_id perform now) d s)
  unfolding replay_all
  replay_all-Leaves pre [] post s fresh h = (
    [],
    h
        ∙ ap (λ u. pre ++ u) (sym (append-nil post))
        ∙ ap (λ u. u ++ (post ++ [])) (sym (append-nil pre)),
    refl,
    omega arith,
  )
  replay_all-Leaves pre ((id, action) ∷ d) post s fresh h =
      let x = ending_at new_id perform now action s in
      let rest =
        replay_all (execute_intent new_id perform now) d
          (one_turn new_id perform now id action s) in
      subst
        (λ b.
          Leaves new_id perform now pre ((id, action) ∷ d)
            (endings new_id perform now ((id, action) ∷ d) s) post
            (rest.0, if b then rest.1 + 1 else rest.1))
        (sym (executed-raised new_id perform now action s))
        (after_rest new_id perform now x pre d post
          (endings new_id perform now d (one_turn new_id perform now id action s)) id (new_id s.log)
          action rest
          (replay_all-Leaves (pre_after new_id perform now x id action pre) d
            (intents_after x (new_id s.log) action post) (one_turn new_id perform now id action s)
            fresh.1 (one_turn-intents pre d post id action s fresh.0 h)))

-- A replay of the intents loses none. With the ids that `_run_action` takes being new, the intents
-- that are left are those whose execution ended with `TokenInvalidError`, under their ids, and after
-- them, under the new ids, the actions of all that did not end normally, in their order: so one that
-- ended with `TokenInvalidError` is there twice. The number returned is that of the others.
pub replay_intents-Renews :
    (new_id : Log SyncAction → String) (last_part : String → String) (site : Site)
    (now : Engine → ℕ) (e : Engine)
    → AllNew new_id
        (perform last_part site)
        now
        (get_unresolved e.log)
        (record { log = e.log; world = e })
    → let d = get_unresolved e.log in
      let es = endings new_id (perform last_part site) now d (record { log = e.log; world = e }) in
      let after = replay_intents new_id (perform last_part site) now e in
      (renewed : Dict SyncAction) × (get_unresolved after.0.log ≡ kept_lines d es ++ renewed)
      × (map (λ e. e.1) renewed ≡ unfinished d es)
      × (after.1 + length (kept_lines d es) ≡ length d)
unfolding replay_intents replay
replay_intents-Renews new_id last_part site now e fresh =
    replay_all-Leaves new_id (perform last_part site) now
      (λ a e'. ap (λ l. l.0) (perform-loop site last_part a e')) [] (get_unresolved e.log) []
      (record { log = e.log; world = e }) fresh (sym (append-nil (get_unresolved e.log)))
