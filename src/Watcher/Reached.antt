-- ===== src/Watcher/Reached.antt =====
-- The states of the watcher in which each armed timer can be cancelled.
use obsidian_sync.Base.{
  ℕ, String, Bool, true, false, ◌≡◌, refl, none, some, List, [], ◌∷◌, Dict, lookup, remove,
  lookup-remove, all_of, arith,
}
use text.Mathlib.TextPositions.{eq_refl}
use obsidian_sync.Engine.Convert.{EventType, deleted_event}
use obsidian_sync.Watcher.{
  Timer, Watcher, FileEvent, new_watcher, discard, mark_event, is_ignored, on_changed, on_deleted,
  on_moved, begin, fire_change,
}
use obsidian_sync.Watcher.Handlers.{on_changed-IsTracked, on_deleted-IsTracked, on_moved-IsTracked}
use obsidian_sync.Watcher.Tracked.{
  IsTracked, is_current, absent-is_current, armed_for, unarmed_current, without_timer-current,
  discard-IsTracked,
}

module _ (should_ignore : String → Bool) (first_part : String → String) (is_symlink : String → Bool)
    (debounce : ℕ) where
  -- What the watcher comes to if no timer fires after it was replaced by another one.
  pub data Reached : Watcher → Type 0 where
    fresh : Reached new_watcher
    change :
        (type : EventType) (now : ℕ) (event : FileEvent) (w : Watcher)
        → Reached w
        → Reached (on_changed should_ignore first_part is_symlink debounce type now event w)
    deletion :
        (now : ℕ) (event : FileEvent) (w : Watcher)
        → Reached w
        → Reached (on_deleted should_ignore first_part is_symlink debounce now event w).0
    moving :
        (now : ℕ) (event : FileEvent) (w : Watcher)
        → Reached w
        → Reached (on_moved should_ignore first_part is_symlink debounce now event w).0
    beginning : (t : Timer) (w : Watcher) → Reached w → Reached (begin t w)
    firing :
        (t : Timer) (w : Watcher)
        → Reached w
        → armed_for t.path w.armed ≡ []
        → Reached (fire_change t w).0

  pub reached-IsTracked : (w : Watcher) → Reached w → IsTracked w
  unfolding all_of new_watcher begin fire_change
  reached-IsTracked _ fresh = refl
  reached-IsTracked _ (change type now event w r) =
      on_changed-IsTracked should_ignore first_part is_symlink debounce type now event w
        (reached-IsTracked w r)
  reached-IsTracked _ (deletion now event w r) =
      on_deleted-IsTracked should_ignore first_part is_symlink debounce now event w
        (reached-IsTracked w r)
  reached-IsTracked _ (moving now event w r) =
      on_moved-IsTracked should_ignore first_part is_symlink debounce now event w
        (reached-IsTracked w r)
  reached-IsTracked _ (beginning t w r) =
      without_timer-current t.id w.timers w.armed (reached-IsTracked w r)
  reached-IsTracked _ (firing t w r unarmed) =
      unarmed_current t.path w.timers w.armed unarmed (reached-IsTracked w r)

-- a path without a timer in the dict has no current timer
pub no_armed :
    (path : String) (timers : Dict ℕ) (ts : List Timer)
    → lookup path timers ≡ none
    → all_of (is_current timers) ts ≡ true
    → armed_for path ts ≡ []
unfolding all_of armed_for
no_armed path timers [] absent h = refl
no_armed path timers (t ∷ ts) absent h =
    ground (arith, absent-is_current path timers t absent, no_armed path timers ts absent)

-- an event of a file, reported by the observer
abbrev pub event_at : String → FileEvent
event_at path = record { is_directory = false; src_path = some path; dest_path = none }

module _ (should_ignore : String → Bool) (first_part : String → String) (is_symlink : String → Bool)
    (debounce : ℕ) where
  -- A deletion of a watched path is handed to the engine at once. If no timer has fired after it was
  -- replaced by another one, then no timer of the path is armed any more.
  pub on_deleted-disarms :
      (now : ℕ) (path : String) (w : Watcher)
      → Reached should_ignore first_part is_symlink debounce w
      → is_ignored should_ignore first_part is_symlink debounce path ≡ false
      → let r = on_deleted should_ignore first_part is_symlink debounce now (event_at path) w in
        (r.1 ≡ (deleted_event, path) ∷ []) × (armed_for path r.0.armed ≡ [])
  unfolding on_deleted mark_event discard
  on_deleted-disarms now path w r watched = rw watched (
    refl,
    no_armed path (remove path w.timers) _ (rw (lookup-remove, eq_refl path) refl) (
        discard-IsTracked path w
          (reached-IsTracked should_ignore first_part is_symlink debounce w r)),
  )
