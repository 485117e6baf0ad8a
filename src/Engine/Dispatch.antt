-- ===== src/Engine/Dispatch.antt =====
-- `SyncEngine.handle_local_change` and `handle_remote_changes`: the calls of the watcher and the poller.
use obsidian_sync.Base.{
  ℕ, String, Bool, true, false, ◌≡◌, refl, ◌⊎◌, inl, inr, Option, none, some, List, [], ◌∷◌,
  Bool-cases, arith,
}
use obsidian_sync.Drive.{Change}
use obsidian_sync.Reconcile.Actions.{SyncAction}
use obsidian_sync.Engine.{Engine, execute}
use obsidian_sync.Engine.Convert.{EventType, local_change_to_action, change_to_action}
use obsidian_sync.Engine.Queue.{Finishes}
use obsidian_sync.Engine.Site.{Site}
use obsidian_sync.Engine.Perform.{perform}
use obsidian_sync.Engine.Untouched.{execute-perform-Finishes}
use obsidian_sync.Intent.{Log}

module _ (run : SyncAction → Engine → Option (Engine × Bool)) (now : Engine → ℕ) where
  -- `execute` if there is an action
  unfoldable pub execute_if : Option SyncAction → Engine → Option (Engine × Bool)
  execute_if none e = some (e, false)
  execute_if (some action) e = run action e

  unfoldable pub handle_local_change : EventType → String → Engine → Option (Engine × Bool)
  unfolding local_change_to_action execute_if
  handle_local_change event path e =
      let (e', action) = local_change_to_action (now e) event path e in execute_if action e'

  module _ (should_ignore : String → Bool)
      (resolve_vault_rel_path : List String → String → Option String) where
    unfoldable pub handle_remote_change : Change → Engine → Option (Engine × Bool)
    unfolding change_to_action execute_if
    handle_remote_change change e =
        let (e', action) = change_to_action should_ignore resolve_vault_rel_path (now e) change e in
        execute_if action e'

    -- the loop over the changes, which an exception leaves
    unfoldable pub handle_remote_changes : List Change → Engine → Option (Engine × Bool)
    handle_remote_changes [] e = some (e, false)
    handle_remote_changes (change ∷ changes) e = elim (handle_remote_change change e) [
      | none ↦ none
      | some (e', true) ↦ some (e', true)
      | some (e', false) ↦ handle_remote_changes changes e'
    ]

-- an engine that executes nothing and has nothing to execute
abbrev pub IsIdle : Engine → Type 0
IsIdle e = (e.lock ≡ false) × (e.pending ≡ [])

emptied {ℓ} : {P : Type ℓ} (raised : Bool) → raised ≡ false → (raised ≡ true) ⊎ P → P
emptied raised kept (inl passed) = cc (kept, passed)
emptied raised kept (inr p) = p

module _ (run : SyncAction → Engine → Option (Engine × Bool)) (now : Engine → ℕ)
    (finishes : (action : SyncAction) (e : Engine) → IsIdle e → Finishes (run action e)) where
  execute_if-Finishes :
      (action : Option SyncAction) (e : Engine) → IsIdle e → Finishes (execute_if run now action e)
  unfolding execute_if
  execute_if-Finishes none e idle = (e, false, refl, idle.0, inr idle.1)
  execute_if-Finishes (some action) e idle = finishes action e idle

  handle_local_change-Finishes :
      (event : EventType) (path : String) (e : Engine)
      → IsIdle e
      → Finishes (handle_local_change run now event path e)
  unfolding handle_local_change local_change_to_action
  handle_local_change-Finishes event path e idle = execute_if-Finishes _ _ idle

  module _ (should_ignore : String → Bool)
      (resolve_vault_rel_path : List String → String → Option String) where
    handle_remote_change-Finishes :
        (change : Change) (e : Engine)
        → IsIdle e
        → Finishes (handle_remote_change run now should_ignore resolve_vault_rel_path change e)
    unfolding handle_remote_change change_to_action
    handle_remote_change-Finishes change e idle = execute_if-Finishes _ _ idle

    handle_remote_changes-Finishes :
        (changes : List Change) (e : Engine)
        → IsIdle e
        → Finishes (handle_remote_changes run now should_ignore resolve_vault_rel_path changes e)
    unfolding handle_remote_changes
    handle_remote_changes-Finishes [] e idle = (e, false, refl, idle.0, inr idle.1)
    handle_remote_changes-Finishes (change ∷ changes) e idle =
        let first = handle_remote_change-Finishes change e idle in
        let later = handle_remote_changes-Finishes changes first.0 in
        elim (Bool-cases first.1) [
          | inl passed ↦
              rw (handle_remote_changes, first.2, passed) (first.0, true, refl, first.3, inl refl)
          | inr kept ↦
              rw (handle_remote_changes, first.2, kept)
                (later (first.3, emptied first.1 kept first.4))
        ]

-- For an engine that is idle, handling the changes of the Drive ends: with an engine whose lock is
-- free, and whose queue is empty unless an exception is passed on.
pub handle_remote_changes-execute :
    (new_id : Log SyncAction → String) (last_part : String → String) (site : Site)
    (now : Engine → ℕ) (should_ignore : String → Bool)
    (resolve_vault_rel_path : List String → String → Option String) (fuel : ℕ)
    (changes : List Change) (e : Engine)
    → IsIdle e
    → Finishes (
        handle_remote_changes
          (execute new_id (perform last_part site) now fuel)
          now
          should_ignore
          resolve_vault_rel_path
          changes
          e)
handle_remote_changes-execute new_id last_part site now should_ignore resolve_vault_rel_path fuel
      changes e =
    handle_remote_changes-Finishes (execute new_id (perform last_part site) now fuel) now
      (λ action e' idle.
        execute-perform-Finishes new_id last_part site now fuel action e' idle.0
          (rw idle.1 (omega arith)))
      should_ignore resolve_vault_rel_path changes e
