-- ===== src/Engine/Queue.antt =====
-- The queue behind the lock: `execute` finishes, empties the queue and releases the lock.
use obsidian_sync.Base.{
  ℕ, zero, suc, ◌≤◌, String, Bool, true, false, ◌≡◌, ◌⊎◌, refl, sym, subst, ap, ◌∙◌, inl, inr,
  Option, some, List, [], ◌∷◌, length, if◌then◌else◌, arith, if_intro,
}
use obsidian_sync.Reconcile.Actions.{
  SyncAction, upload_file, download_file, delete_remote_file, delete_local_file, rename_remote_file,
  conflict_files,
}
use obsidian_sync.Intent.{Log, record_intent}
use obsidian_sync.Engine.{
  Engine, Ending, done, token_invalid, not_found, failed, concluded, run_action, suppressed,
  run_queued, drain, released, release_lock, acquire_lock, execute,
}

-- the loop ends; unless an exception is passed on, the queue is empty
abbrev pub Drained : Option (Engine × Bool) → Type 0
Drained r =
    (e : Engine) × (raised : Bool) × (r ≡ some (e, raised)) × ((raised ≡ true) ⊎ (e.pending ≡ []))

-- what an idle engine is left as
abbrev pub Finishes : Option (Engine × Bool) → Type 0
Finishes r =
    (e : Engine) × (raised : Bool) × (r ≡ some (e, raised))
    × (e.lock ≡ false)
    × ((raised ≡ true) ⊎ (e.pending ≡ []))

module _ (new_id : Log SyncAction → String) (perform : SyncAction → Engine → Engine × Ending)
    (now : Engine → ℕ)
    (calm : (a : SyncAction) (e : Engine) → (perform a e).0.pending ≡ e.pending) where
  concluded-pending :
      (ending : Ending) (action : SyncAction) (id : String) (e : Engine)
      → (concluded new_id perform now action id e ending).0.pending ≡ e.pending
  unfolding concluded
  concluded-pending done action id e = refl
  concluded-pending token_invalid action id e = refl
  concluded-pending (not_found missing_id) action id e = refl
  concluded-pending failed action id e = refl

  run_action-pending :
      (action : SyncAction) (e : Engine)
      → (run_action new_id perform now action e).0.pending ≡ e.pending
  unfolding run_action
  run_action-pending action e =
      let logged = record e { log = record_intent (new_id e.log) action e.log } in
      concluded-pending (perform action logged).1 action (new_id e.log) (perform action logged).0
      ∙ calm action logged

  suppressed-pending :
      (action : SyncAction) (e : Engine)
      → (suppressed new_id perform now action e).0.pending ≡ e.pending
  unfolding suppressed
  suppressed-pending (upload_file path reason) e = refl
  suppressed-pending (download_file id path reason) e = refl
  suppressed-pending (delete_remote_file id path reason) e = refl
  suppressed-pending (delete_local_file path reason) e = refl
  suppressed-pending (rename_remote_file old new_path) e = refl
  suppressed-pending (conflict_files path local remote winner reason) e = refl

  run_queued-pending :
      (action : SyncAction) (e : Engine)
      → (run_queued new_id perform now action e).0.pending ≡ e.pending
  unfolding run_queued
  run_queued-pending action e =
      if_intro (λ (r : Engine × Bool). r.0.pending ≡ e.pending)
        (suppressed new_id perform now action e).1 _ _ (λ _. suppressed-pending action e)
        (λ _.
          run_action-pending action (suppressed new_id perform now action e).0
          ∙ suppressed-pending action e)

  drain-Drained :
      (fuel : ℕ) (queue : List SyncAction) (e : Engine)
      → e.pending ≡ queue
      → length queue ≤ fuel
      → Drained (drain new_id perform now fuel queue e)
  unfolding drain
  drain-Drained fuel [] e h n = (e, false, refl, inr h)
  drain-Drained zero (action ∷ rest) e h n = absurd (omega arith)
  drain-Drained (suc fuel) (action ∷ rest) e h n =
      let ran = run_queued new_id perform now action (record e { pending = rest }) in
      let left = run_queued-pending action (record e { pending = rest }) in
      if_intro Drained ran.1 (some (ran.0, true))
        (drain new_id perform now fuel ran.0.pending ran.0) (λ _. (ran.0, true, refl, inl refl))
        (λ _.
          drain-Drained fuel ran.0.pending ran.0 refl
            (subst (λ q. length q ≤ fuel) (sym left) (omega arith)))

  released-Finishes :
      (r : Option (Engine × Bool)) → Drained r → Finishes (released new_id perform now r)
  unfolding released release_lock
  released-Finishes r (e, raised, h, left) =
      (release_lock e, raised, ap (released new_id perform now) h, refl, left)

  -- On an idle engine `execute` returns, the lock is released, and the queue is empty unless an
  -- exception is passed on, if executing an action adds nothing to the queue and the fuel is not less
  -- than the length of the queue.
  pub execute-Finishes :
      (fuel : ℕ) (action : SyncAction) (e : Engine)
      → e.lock ≡ false
      → length e.pending ≤ fuel
      → Finishes (execute new_id perform now fuel action e)
  unfolding execute acquire_lock
  execute-Finishes fuel action e idle n =
      let ran = run_action new_id perform now action (record e { lock = true }) in
      let left = run_action-pending action (record e { lock = true }) in
      rw idle (
        released-Finishes
          (if ran.1 then some (ran.0, true) else drain new_id perform now fuel ran.0.pending ran.0)
          (if_intro Drained ran.1 _ _ (λ _. (ran.0, true, refl, inl refl))
            (λ _.
              drain-Drained fuel ran.0.pending ran.0 refl
                (subst (λ q. length q ≤ fuel) (sym left) n))))
