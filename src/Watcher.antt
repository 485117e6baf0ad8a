-- ===== src/Watcher.antt =====
-- src/local_watcher.py: the debounced events of the file watcher. Each function is what one thread does
-- while it holds the lock of the timers. A timer whose time has come has begun: from then on `cancel`
-- does nothing, and its thread waits for the lock.
pub mod Debounce
pub mod Tracked
pub mod Handlers
pub mod Reached
mod Tests
use obsidian_sync.Base.{
  ℕ, suc, ◌+◌, ◌-◌, String, Bool, true, false, not, ◌||◌, ◌&&◌, Option, none, some, List, [], ◌∷◌,
  ◌++◌, Dict, lookup, insert, remove, eqb, if◌then◌else◌, truthy_text, ◌==◌,
}
use obsidian_sync.Engine.Convert.{EventType, created_event, modified_event, deleted_event}

pub record Timer : Type 0 where
  pub id : ℕ
  pub path : String
  pub event : EventType
  pub due : ℕ

-- `timers` has the id of the timer of each path, `started` counts the timers.
pub record Watcher : Type 0 where
  pub timers : Dict ℕ
  pub armed : List Timer
  pub begun : List Timer
  pub started : ℕ
  pub last_event : Option ℕ

-- an event of the observer; a path is `none` if `_to_relative` finds it outside the vault
pub record FileEvent : Type 0 where
  pub is_directory : Bool
  pub src_path : Option String
  pub dest_path : Option String

-- what is handed to the engine
abbrev pub Delivery : Type 0
Delivery = EventType × String

unfoldable pub without_timer : ℕ → List Timer → List Timer
without_timer id [] = []
without_timer id (t ∷ ts) = let rest = without_timer id ts in if eqb t.id id then rest else t ∷ rest

-- `timer.cancel()`, for the timer of a path if there is one
unfoldable pub cancel : Option ℕ → List Timer → List Timer
unfolding without_timer
cancel none ts = ts
cancel (some id) ts = without_timer id ts

-- `self._timers.pop(rel, None)`, with the cancelling
unfoldable pub discard : String → Watcher → Watcher
unfolding cancel
discard path w = record w {
  timers = remove path w.timers;
  armed = cancel (lookup path w.timers) w.armed;
}

unfoldable pub mark_event : ℕ → Watcher → Watcher
mark_event now w = record w { last_event = some now }

-- `last_event_age`; `none` is infinite
unfoldable pub last_event_age : ℕ → Watcher → Option ℕ
last_event_age now w = elim w.last_event [ none ↦ none | some time ↦ some (now - time) ]

-- `_enqueue_with_debounce_for_path`
unfoldable pub enqueue : ℕ → ℕ → String → EventType → Watcher → Watcher
unfolding cancel
enqueue debounce now path event w = record w {
  timers = insert path w.started w.timers;
  armed =
      cancel (lookup path w.timers) w.armed
      ++ (record { id = w.started; path = path; event = event; due = now + debounce } ∷ []);
  started = suc w.started;
}

module _ (should_ignore : String → Bool) (first_part : String → String) (is_symlink : String → Bool)
    (debounce : ℕ) where
  -- `_should_ignore`
  unfoldable pub is_ignored : String → Bool
  is_ignored path =
      not (truthy_text path) || should_ignore path || first_part path == ".sync" || is_symlink path

  -- `on_created` and `on_modified`
  unfoldable pub on_changed : EventType → ℕ → FileEvent → Watcher → Watcher
  unfolding is_ignored mark_event enqueue
  on_changed type now event w = if event.is_directory then w else elim event.src_path [
    | none ↦ w
    | some path ↦ if is_ignored path then w else enqueue debounce now path type (mark_event now w)
  ]

  unfoldable pub on_deleted : ℕ → FileEvent → Watcher → Watcher × List Delivery
  unfolding is_ignored discard mark_event
  on_deleted now event w = if event.is_directory then (w, []) else elim event.src_path [
    | none ↦ (w, [])
    | some path ↦
        if is_ignored path
        then (w, [])
        else (mark_event now (discard path w), (deleted_event, path) ∷ [])
  ]

  -- a move between two paths of the vault
  unfoldable pub move_event : ℕ → String → String → Watcher → Watcher × List Delivery
  unfolding is_ignored discard mark_event enqueue
  move_event now src dest w =
      let marked = mark_event now w in
      let (left, sent) : Watcher × List Delivery =
        if is_ignored src then (marked, []) else (discard src marked, (deleted_event, src) ∷ []) in
      if is_ignored src && is_ignored dest
      then (w, [])
      else (if is_ignored dest then left else enqueue debounce now dest created_event left, sent)

  unfoldable pub on_moved : ℕ → FileEvent → Watcher → Watcher × List Delivery
  unfolding move_event
  on_moved now event w = if event.is_directory then (w, []) else elim event.src_path [
    | none ↦ (w, [])
    | some src ↦ elim event.dest_path [ none ↦ (w, []) | some dest ↦ move_event now src dest w ]
  ]

-- the time of a timer has come
unfoldable pub begin : Timer → Watcher → Watcher
unfolding without_timer
begin t w = record w { armed = without_timer t.id w.armed; begun = w.begun ++ (t ∷ []) }

-- `_fire_change`, in the thread of a timer that has begun
unfoldable pub fire_change : Timer → Watcher → Watcher × List Delivery
unfolding without_timer
fire_change t w = (
  record w { timers = remove t.path w.timers; begun = without_timer t.id w.begun },
  (t.event, t.path) ∷ [],
)

-- the timers that `stop` cancels
unfoldable pub cancel_all : Dict ℕ → List Timer → List Timer
unfolding without_timer
cancel_all [] ts = ts
cancel_all ((path, id) ∷ timers) ts = cancel_all timers (without_timer id ts)

unfoldable pub stop : Watcher → Watcher
unfolding cancel_all
stop w = record w { timers = []; armed = cancel_all w.timers w.armed }

unfoldable pub new_watcher : Watcher
new_watcher = record { timers = []; armed = []; begun = []; started = 0; last_event = none }
