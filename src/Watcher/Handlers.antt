-- ===== src/Watcher/Handlers.antt =====
-- The handlers of the watcher keep each armed timer in the dict.
use obsidian_sync.Base.{ℕ, String, Bool, inl, inr, List, if_intro, Bool-cases, Option-cases}
use obsidian_sync.Engine.Convert.{EventType, created_event}
use obsidian_sync.Watcher.{
  Watcher, FileEvent, Delivery, discard, mark_event, is_ignored, on_changed, on_deleted, move_event,
  on_moved,
}
use obsidian_sync.Watcher.Tracked.{IsTracked, enqueue-IsTracked, discard-IsTracked}

module _ (should_ignore : String → Bool) (first_part : String → String) (is_symlink : String → Bool)
    (debounce : ℕ) where
  pub on_changed-IsTracked :
      (type : EventType) (now : ℕ) (event : FileEvent) (w : Watcher)
      → IsTracked w
      → IsTracked (on_changed should_ignore first_part is_symlink debounce type now event w)
  unfolding on_changed mark_event
  on_changed-IsTracked type now event w h =
      if_intro IsTracked event.is_directory _ _ (λ _. h)
        (λ _. elim (Option-cases event.src_path) [
          | inl absent ↦ rw absent h
          | inr (path, there) ↦
              rw there
                (elim (Bool-cases (is_ignored should_ignore first_part is_symlink debounce path)) [
                  | inl ignored ↦ rw ignored h
                  | inr watched ↦ rw watched (enqueue-IsTracked debounce now path type w h)
                ])
        ])

  pub on_deleted-IsTracked :
      (now : ℕ) (event : FileEvent) (w : Watcher)
      → IsTracked w
      → IsTracked (on_deleted should_ignore first_part is_symlink debounce now event w).0
  unfolding on_deleted mark_event
  on_deleted-IsTracked now event w h =
      if_intro (λ (r : Watcher × List Delivery). IsTracked r.0) event.is_directory _ _ (λ _. h)
        (λ _. elim (Option-cases event.src_path) [
          | inl absent ↦ rw absent h
          | inr (path, there) ↦
              rw there
                (elim (Bool-cases (is_ignored should_ignore first_part is_symlink debounce path)) [
                  | inl ignored ↦ rw ignored h
                  | inr watched ↦ rw watched (discard-IsTracked path w h)
                ])
        ])

  move_event-IsTracked :
      (now : ℕ) (src dest : String) (w : Watcher)
      → IsTracked w
      → IsTracked (move_event should_ignore first_part is_symlink debounce now src dest w).0
  unfolding move_event mark_event
  move_event-IsTracked now src dest w h =
      elim (Bool-cases (is_ignored should_ignore first_part is_symlink debounce src)) [
        | inl from_outside ↦
            elim (Bool-cases (is_ignored should_ignore first_part is_symlink debounce dest)) [
              | inl outside ↦ rw (from_outside, outside) h
              | inr watched ↦
                  rw (from_outside, watched) (enqueue-IsTracked debounce now dest created_event w h)
            ]
        | inr was_watched ↦
            elim (Bool-cases (is_ignored should_ignore first_part is_symlink debounce dest)) [
              | inl outside ↦ rw (was_watched, outside) (discard-IsTracked src w h)
              | inr watched ↦
                  rw (was_watched, watched)
                    (enqueue-IsTracked debounce now dest created_event (discard src w)
                      (discard-IsTracked src w h))
            ]
      ]

  pub on_moved-IsTracked :
      (now : ℕ) (event : FileEvent) (w : Watcher)
      → IsTracked w
      → IsTracked (on_moved should_ignore first_part is_symlink debounce now event w).0
  unfolding on_moved
  on_moved-IsTracked now event w h =
      if_intro (λ (r : Watcher × List Delivery). IsTracked r.0) event.is_directory _ _ (λ _. h)
        (λ _. elim (Option-cases event.src_path) [
          | inl absent ↦ rw absent h
          | inr (src, there) ↦ rw there (elim (Option-cases event.dest_path) [
            | inl outside ↦ rw outside h
            | inr (dest, inside) ↦ rw inside (move_event-IsTracked now src dest w h)
          ])
        ])
