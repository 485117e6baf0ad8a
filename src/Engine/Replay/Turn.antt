-- ===== src/Engine/Replay/Turn.antt =====
-- src/sync_engine.py: one turn of a replay by the engine.
use obsidian_sync.Base.{
  ℕ, ◌+◌, String, Bool, true, false, not, ◌≡◌, refl, sym, ap, subst, ◌∙◌, List, [], ◌∷◌, ◌++◌,
  append_assoc, map, Dict, remove, Distinct, length, if◌then◌else◌, arith,
}
use obsidian_sync.Reconcile.Actions.{SyncAction}
use obsidian_sync.Intent.{Log, State, get_unresolved, resolve}
use obsidian_sync.Intent.Unresolved.{get_unresolved-resolve}
use obsidian_sync.Intent.Compact.{get_unresolved-Distinct}
use obsidian_sync.Intent.Replay.{remove-middle}
use obsidian_sync.Engine.{
  Engine, Ending, done, token_invalid, not_found, failed, concluded, run_action,
}
use obsidian_sync.Engine.Run.{intents_after, IsNew, logged}
use obsidian_sync.Engine.Replay.{engine_of, execute_intent}

-- whether the exception is passed on
abbrev pub is_token : Ending → Bool
is_token done = false
is_token token_invalid = true
is_token (not_found id) = false
is_token failed = false

-- the intents that keep their line: those whose execution passed its exception on
abbrev pub kept_lines : Dict SyncAction → List Ending → Dict SyncAction
kept_lines [] endings = []
kept_lines (intent ∷ d) [] = []
kept_lines (intent ∷ d) (ending ∷ endings) =
    let rest = kept_lines d endings in if is_token ending then intent ∷ rest else rest

-- the actions that did not end normally
abbrev pub unfinished : Dict SyncAction → List Ending → List SyncAction
unfinished [] endings = []
unfinished (intent ∷ d) [] = []
unfinished ((id, action) ∷ d) (done ∷ endings) = unfinished d endings
unfinished ((id, action) ∷ d) (token_invalid ∷ endings) = action ∷ unfinished d endings
unfinished ((id, action) ∷ d) (not_found missing ∷ endings) = action ∷ unfinished d endings
unfinished ((id, action) ∷ d) (failed ∷ endings) = action ∷ unfinished d endings

module _ (new_id : Log SyncAction → String) (perform : SyncAction → Engine → Engine × Ending)
    (now : Engine → ℕ) where
  -- one turn of the loop
  abbrev pub one_turn : String → SyncAction → State SyncAction Engine → State SyncAction Engine
  one_turn id action s =
      let r = execute_intent new_id perform now action s in
      if r.1 then record r.0 { log = resolve id r.0.log } else r.0

  -- how the action of an intent ends
  abbrev pub ending_at : SyncAction → State SyncAction Engine → Ending
  ending_at action s = (perform action (logged new_id action (engine_of new_id perform now s))).1

  -- the endings of the intents, in the states that the loop comes to
  abbrev pub endings : Dict SyncAction → State SyncAction Engine → List Ending
  endings [] s = []
  endings ((id, action) ∷ d) s = ending_at action s ∷ endings d (one_turn id action s)

  -- each new id is new when it is taken
  abbrev pub AllNew : Dict SyncAction → State SyncAction Engine → Type 0
  AllNew [] s = Unit
  AllNew ((id, action) ∷ d) s = IsNew (new_id s.log) s.log × AllNew d (one_turn id action s)

  -- what the loop over the intents `d` leaves, between other intents
  abbrev pub Leaves :
      Dict SyncAction
      → Dict SyncAction
      → List Ending
      → Dict SyncAction
      → State SyncAction Engine × ℕ
      → Type 0
  Leaves pre d es post result =
      (renewed : Dict SyncAction) × (get_unresolved result.0.log
        ≡ (pre ++ kept_lines d es) ++ (post ++ renewed))
      × (map (λ e. e.1) renewed ≡ unfinished d es)
      × (result.1 + length (kept_lines d es) ≡ length d)

  pub executed-raised :
      (action : SyncAction) (s : State SyncAction Engine)
      → (execute_intent new_id perform now action s).1 ≡ not (is_token (ending_at action s))
  unfolding execute_intent run_action concluded
  executed-raised action s =
      by_ending (perform action (logged new_id action (engine_of new_id perform now s))).1
    where
      by_ending :
          (x : Ending)
          → not
              (concluded new_id perform now action
                (new_id s.log)
                (perform action (logged new_id action (engine_of new_id perform now s))).0
                x).1
            ≡ not (is_token x)
      by_ending done = refl
      by_ending token_invalid = refl
      by_ending (not_found missing) = refl
      by_ending failed = refl

  -- the intents before and after the ones that are left, after a turn
  abbrev pub pre_after : Ending → String → SyncAction → Dict SyncAction → Dict SyncAction
  pre_after done id action pre = pre
  pre_after token_invalid id action pre = pre ++ ((id, action) ∷ [])
  pre_after (not_found missing) id action pre = pre
  pre_after failed id action pre = pre

  abbrev pub log_after : Ending → String → Log SyncAction → Log SyncAction
  log_after done id log = resolve id log
  log_after token_invalid id log = log
  log_after (not_found missing) id log = resolve id log
  log_after failed id log = resolve id log

  pub one_turn-log :
      (id : String) (action : SyncAction) (s : State SyncAction Engine)
      → (one_turn id action s).log
        ≡ log_after (ending_at action s) id (execute_intent new_id perform now action s).0.log
  one_turn-log id action s = rw (executed-raised action s) (by_ending (ending_at action s))
    where
      by_ending :
          (x : Ending)
          → (let r = execute_intent new_id perform now action s in
              if not (is_token x) then record r.0 { log = resolve id r.0.log } else r.0).log
            ≡ log_after x id (execute_intent new_id perform now action s).0.log
      by_ending done = refl
      by_ending token_invalid = refl
      by_ending (not_found missing) = refl
      by_ending failed = refl

  -- removing an intent in front of the ones recorded last
  remove_there :
      (pre d post : Dict SyncAction) (id : String) (action : SyncAction) (log : Log SyncAction)
      → get_unresolved log ≡ pre ++ ((id, action) ∷ (d ++ post))
      → get_unresolved (resolve id log) ≡ pre ++ (d ++ post)
  remove_there pre d post id action log h =
      get_unresolved-resolve log id
      ∙ ap (remove id) h
      ∙ remove-middle pre id action (d ++ post) (subst Distinct h (get_unresolved-Distinct log))

  -- a renewed intent, in its place
  renewed_there :
      (pre d post : Dict SyncAction) (id new : String) (action : SyncAction)
      (before log : Log SyncAction)
      → get_unresolved before ≡ pre ++ ((id, action) ∷ (d ++ post))
      → get_unresolved log ≡ get_unresolved before ++ ((new, action) ∷ [])
      → get_unresolved log ≡ pre ++ ((id, action) ∷ (d ++ (post ++ ((new, action) ∷ []))))
  renewed_there pre d post id new action before log h e =
      let last : Dict SyncAction = (new, action) ∷ [] in
      e
      ∙ ap (λ u. u ++ last) h
      ∙ append_assoc pre ((id, action) ∷ (d ++ post)) last
      ∙ ap (λ u. pre ++ ((id, action) ∷ u)) (append_assoc d post last)

  pub after_turn :
      (x : Ending) (pre d post : Dict SyncAction) (id new : String) (action : SyncAction)
      (before log : Log SyncAction)
      → get_unresolved before ≡ pre ++ ((id, action) ∷ (d ++ post))
      → get_unresolved log ≡ intents_after x new action (get_unresolved before)
      → get_unresolved (log_after x id log)
        ≡ pre_after x id action pre ++ (d ++ intents_after x new action post)
  after_turn done pre d post id new action before log h e =
      remove_there pre d post id action log (e ∙ h)
  after_turn token_invalid pre d post id new action before log h e =
      renewed_there pre d post id new action before log h e
      ∙ sym (append_assoc pre ((id, action) ∷ []) (d ++ (post ++ ((new, action) ∷ []))))
  after_turn (not_found missing) pre d post id new action before log h e =
      remove_there pre d (post ++ ((new, action) ∷ [])) id action log
        (renewed_there pre d post id new action before log h e)
  after_turn failed pre d post id new action before log h e =
      remove_there pre d (post ++ ((new, action) ∷ [])) id action log
        (renewed_there pre d post id new action before log h e)

  -- the result of the loop, by the result of its rest
  abbrev counted : Ending → State SyncAction Engine × ℕ → State SyncAction Engine × ℕ
  counted x r = (r.0, if not (is_token x) then r.1 + 1 else r.1)

  renewed_first :
      (pre d : Dict SyncAction) (es : List Ending) (post : Dict SyncAction) (new : String)
      (action : SyncAction) (r : State SyncAction Engine × ℕ)
      → Leaves pre d es (post ++ ((new, action) ∷ [])) r
      → (renewed : Dict SyncAction) × (get_unresolved r.0.log
          ≡ (pre ++ kept_lines d es) ++ (post ++ renewed))
        × (map (λ e. e.1) renewed ≡ action ∷ unfinished d es)
        × (r.1 + length (kept_lines d es) ≡ length d)
  renewed_first pre d es post new action r (renewed, e, actions, n) = (
    (new, action) ∷ renewed,
    e ∙ ap (λ u. (pre ++ kept_lines d es) ++ u) (append_assoc post ((new, action) ∷ []) renewed),
    ap (λ u. action ∷ u) actions,
    n,
  )

  pub after_rest :
      (x : Ending) (pre d post : Dict SyncAction) (es : List Ending) (id new : String)
      (action : SyncAction) (r : State SyncAction Engine × ℕ)
      → Leaves (pre_after x id action pre) d es (intents_after x new action post) r
      → Leaves pre ((id, action) ∷ d) (x ∷ es) post (counted x r)
  after_rest done pre d post es id new action r (renewed, e, actions, n) =
      (renewed, e, actions, omega (arith, n))
  after_rest token_invalid pre d post es id new action r l =
      let (renewed, e, actions, n) =
        renewed_first (pre ++ ((id, action) ∷ [])) d es post new action r l in
      (
        renewed,
        e
            ∙ ap (λ u. u ++ (post ++ renewed))
                (append_assoc pre ((id, action) ∷ []) (kept_lines d es)),
        actions,
        omega (arith, n),
      )
  after_rest (not_found missing) pre d post es id new action r l =
      let (renewed, e, actions, n) = renewed_first pre d es post new action r l in
      (renewed, e, actions, omega (arith, n))
  after_rest failed pre d post es id new action r l =
      let (renewed, e, actions, n) = renewed_first pre d es post new action r l in
      (renewed, e, actions, omega (arith, n))
