-- ===== src/Watcher/Tracked.antt =====
-- The timers that can still be cancelled.
use text.Mathlib.TextPositions.{eq_refl}
use obsidian_sync.Base.{
  ℕ, String, Bool, true, false, ◌≡◌, refl, sym, subst, ap, ◌∙◌, inl, inr, Option, none, some, List,
  [], ◌∷◌, ◌++◌, Dict, lookup, insert, remove, lookup-insert, lookup-remove, eqb, all_of,
  if◌then◌else◌, ◌==◌, eq_iff, Bool-cases, Option-cases, arith,
}
use obsidian_sync.Engine.Convert.{EventType}
use obsidian_sync.Watcher.{Timer, Watcher, without_timer, cancel, discard, enqueue}

abbrev pub is_id : ℕ → Option ℕ → Bool
is_id id none = false
is_id id (some i) = eqb i id

-- whether a timer is the one that the dict has for its path
unfoldable pub is_current : Dict ℕ → Timer → Bool
is_current timers t = is_id t.id (lookup t.path timers)

pub absent-is_current :
    (path : String) (timers : Dict ℕ) (t : Timer)
    → lookup path timers ≡ none
    → (path == t.path) ≡ true
    → is_current timers t ≡ false
unfolding is_current
absent-is_current path timers t absent same =
    ap (is_id t.id) (subst (λ p. lookup p timers ≡ none) ((eq_iff path t.path).0 same) absent)

-- the timers of the path that are armed
unfoldable pub armed_for : String → List Timer → List Timer
armed_for path [] = []
armed_for path (t ∷ ts) = let rest = armed_for path ts in if path == t.path then t ∷ rest else rest

-- Each armed timer is the current one of its path, so that it can be cancelled.
abbrev pub IsTracked : Watcher → Type 0
IsTracked w = all_of (is_current w.timers) w.armed ≡ true

-- a current timer of another id stays current when the timer of a path is cancelled
kept_current :
    (path : String) (timers : Dict ℕ) (id : ℕ) (t : Timer)
    → lookup path timers ≡ some id
    → is_current timers t ≡ true
    → eqb t.id id ≡ false
    → is_current (remove path timers) t ≡ true
unfolding is_current
kept_current path timers id t there current apart = elim (Bool-cases (path == t.path)) [
  | inl same ↦
      let at : is_id t.id (some id) ≡ true =
        ap (is_id t.id)
          (sym (subst (λ p. lookup p timers ≡ some id) ((eq_iff path t.path).0 same) there))
        ∙ current in
      absurd (ground (arith, at, apart))
  | inr other ↦ rw (is_current, lookup-remove, other) current
]

cancel_current :
    (path : String) (timers : Dict ℕ) (id : ℕ) (ts : List Timer)
    → lookup path timers ≡ some id
    → all_of (is_current timers) ts ≡ true
    → all_of (is_current (remove path timers)) (without_timer id ts) ≡ true
unfolding all_of without_timer
cancel_current path timers id [] there h = refl
cancel_current path timers id (t ∷ ts) there h =
    ground (arith, kept_current path timers id t there, cancel_current path timers id ts there)

kept_absent :
    (path : String) (timers : Dict ℕ) (t : Timer)
    → lookup path timers ≡ none
    → is_current timers t ≡ true
    → is_current (remove path timers) t ≡ true
unfolding is_current
kept_absent path timers t absent current = elim (Bool-cases (path == t.path)) [
  | inl same ↦ cc (absent-is_current path timers t absent same, current)
  | inr other ↦ rw (is_current, lookup-remove, other) current
]

absent_current :
    (path : String) (timers : Dict ℕ) (ts : List Timer)
    → lookup path timers ≡ none
    → all_of (is_current timers) ts ≡ true
    → all_of (is_current (remove path timers)) ts ≡ true
unfolding all_of
absent_current path timers [] absent h = refl
absent_current path timers (t ∷ ts) absent h =
    ground (arith, kept_absent path timers t absent, absent_current path timers ts absent)

pub cancelled :
    (path : String) (w : Watcher)
    → IsTracked w
    → all_of (is_current (remove path w.timers)) (cancel (lookup path w.timers) w.armed) ≡ true
unfolding cancel
cancelled path w h = elim (Option-cases (lookup path w.timers)) [
  | inl absent ↦ rw absent (absent_current path w.timers w.armed absent h)
  | inr (id, there) ↦ rw there (cancel_current path w.timers id w.armed there h)
]

-- what is current without the path stays current when the path gets a timer
insert_current :
    (path : String) (id : ℕ) (timers : Dict ℕ) (ts : List Timer)
    → all_of (is_current (remove path timers)) ts ≡ true
    → all_of (is_current (insert path id timers)) ts ≡ true
unfolding all_of is_current
insert_current path id timers [] h = refl
insert_current path id timers (t ∷ ts) h = ground (
  arith,
  lookup-remove path t.path timers,
  lookup-insert path t.path id timers,
  insert_current path id timers ts,
)

all_of-append :
    (p : Timer → Bool) (ts : List Timer) (t : Timer)
    → all_of p ts ≡ true
    → p t ≡ true
    → all_of p (ts ++ (t ∷ [])) ≡ true
unfolding all_of
all_of-append p [] t h k = rw k refl
all_of-append p (s ∷ ts) t h k = ground (arith, all_of-append p ts t)

pub enqueue-IsTracked :
    (debounce now : ℕ) (path : String) (event : EventType) (w : Watcher)
    → IsTracked w
    → IsTracked (enqueue debounce now path event w)
unfolding enqueue is_current
enqueue-IsTracked debounce now path event w h =
    all_of-append _ (cancel (lookup path w.timers) w.armed) _
      (insert_current path w.started w.timers _ (cancelled path w h))
      (rw (is_current, lookup-insert, eq_refl path) (ground arith))

pub discard-IsTracked : (path : String) (w : Watcher) → IsTracked w → IsTracked (discard path w)
unfolding discard
discard-IsTracked path w h = cancelled path w h

pub without_timer-current :
    (id : ℕ) (timers : Dict ℕ) (ts : List Timer)
    → all_of (is_current timers) ts ≡ true
    → all_of (is_current timers) (without_timer id ts) ≡ true
unfolding all_of without_timer
without_timer-current id timers [] h = refl
without_timer-current id timers (t ∷ ts) h = ground (arith, without_timer-current id timers ts)

-- without an armed timer of the path, nothing depends on its entry
pub unarmed_current :
    (path : String) (timers : Dict ℕ) (ts : List Timer)
    → armed_for path ts ≡ []
    → all_of (is_current timers) ts ≡ true
    → all_of (is_current (remove path timers)) ts ≡ true
unfolding all_of armed_for is_current
unarmed_current path timers [] none_armed h = refl
unarmed_current path timers (t ∷ ts) none_armed h =
    ground (arith, lookup-remove path t.path timers, unarmed_current path timers ts)
