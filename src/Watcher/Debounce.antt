-- ===== src/Watcher/Debounce.antt =====
-- The debouncing: the timers that an event leaves for its path.
use obsidian_sync.Base.{
  In, In-nil, In-one, In-split, ap, some, none, eqb, inl, inr, Bool-cases, ℕ, ◌+◌, String, Bool,
  false, ◌≡◌, refl, ◌∙◌, List, [], ◌∷◌, ◌++◌, lookup, remove, lookup-remove, arith,
}
use text.Mathlib.TextPositions.{eq_refl}
use obsidian_sync.Engine.Convert.{EventType}
use obsidian_sync.Watcher.{
  Timer, Watcher, without_timer, cancel, enqueue, discard, is_ignored, mark_event, on_changed,
  on_deleted, fire_change,
}
use obsidian_sync.Watcher.Tracked.{IsTracked, armed_for, cancelled}
use obsidian_sync.Watcher.Reached.{Reached, reached-IsTracked, no_armed, event_at}

armed_for-append :
    (path : String) (ts us : List Timer)
    → armed_for path (ts ++ us) ≡ armed_for path ts ++ armed_for path us
unfolding armed_for
armed_for-append path [] us = refl
armed_for-append path (t ∷ ts) us = ground (arith, armed_for-append path ts us)

-- the timer that an event of a path starts
abbrev pub started_timer : ℕ → ℕ → String → EventType → Watcher → Timer
started_timer debounce now path event w = record {
  id = w.started;
  path = path;
  event = event;
  due = now + debounce;
}

enqueue-armed_for :
    (debounce now : ℕ) (path : String) (event : EventType) (w : Watcher)
    → IsTracked w
    → armed_for path (enqueue debounce now path event w).armed
      ≡ started_timer debounce now path event w ∷ []
unfolding enqueue armed_for
enqueue-armed_for debounce now path event w h =
    armed_for-append path (cancel (lookup path w.timers) w.armed) _
    ∙ rw
        (
          no_armed path (remove path w.timers) (cancel (lookup path w.timers) w.armed)
              (lookup-remove path path w.timers ∙ rw (eq_refl path) refl) (cancelled path w h),
          eq_refl path,
        )
        refl

absent-without_timer : (t : Timer) (ts : List Timer) → ¬ In t (without_timer t.id ts)
unfolding without_timer
absent-without_timer t [] = In-nil t
absent-without_timer t (u ∷ ts) = elim (Bool-cases (eqb u.id t.id)) [
  | inl same ↦ rw (without_timer, same) (absent-without_timer t ts)
  | inr other ↦
      rw (without_timer, other)
        (λ h. elim (In-split t (u ∷ []) (without_timer t.id ts) h) [
          | inl first ↦
              let e : t ≡ u = In-one t u first in
              let k : t.id ≡ u.id = ap (λ (x : Timer). x.id) e in ground (arith, k, other)
          | inr later ↦ absent-without_timer t ts later
        ])
]

module _ (should_ignore : String → Bool) (first_part : String → String) (is_symlink : String → Bool)
    (debounce : ℕ) where
  -- Whatever events came before, after an event of a watched path exactly one timer of the path is
  -- armed, for this event and a debounce time from now, if no timer has fired after it was replaced.
  pub on_changed-armed_for :
      (type : EventType) (now : ℕ) (path : String) (w : Watcher)
      → Reached should_ignore first_part is_symlink debounce w
      → is_ignored should_ignore first_part is_symlink debounce path ≡ false
      → armed_for path
          (on_changed should_ignore first_part is_symlink debounce type now (event_at path) w).armed
        ≡ started_timer debounce now path type w ∷ []
  unfolding on_changed mark_event
  on_changed-armed_for type now path w r watched = rw watched (
      enqueue-armed_for debounce now path type (mark_event now w)
        (reached-IsTracked should_ignore first_part is_symlink debounce w r))

  -- A timer fires while the dict has another one for its path, which is armed. Then the entry of that
  -- newer one is taken out of the dict, and a deletion of the path leaves it armed; without the firing
  -- the deletion would have cancelled it.
  pub fire_change-uncancelled :
      (now : ℕ) (t newer : Timer) (w : Watcher)
      → is_ignored should_ignore first_part is_symlink debounce t.path ≡ false
      → ¬ (newer.id ≡ t.id)
      → lookup t.path w.timers ≡ some newer.id
      → In newer w.armed
      → (lookup t.path (fire_change t w).0.timers ≡ none)
        × In newer
            (on_deleted should_ignore first_part is_symlink debounce now
              (event_at t.path)
              (fire_change t w).0).0.armed
        × (¬ In newer
            (on_deleted should_ignore first_part is_symlink debounce now
              (event_at t.path)
              w).0.armed)
  unfolding on_deleted mark_event discard fire_change cancel
  fire_change-uncancelled now t newer w watched apart current armed = (
    lookup-remove t.path t.path w.timers ∙ rw (eq_refl t.path) refl,
    rw (watched, lookup-remove, eq_refl t.path) armed,
    rw (watched, current) (absent-without_timer newer w.armed),
  )
