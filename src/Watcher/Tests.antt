-- ===== src/Watcher/Tests.antt =====
-- The theorems on the watcher at a file that was created and then changed.
use obsidian_sync.Base.{
  In, here, lookup, arith, String, Bool, false, none, ◌≡◌, refl, [], ◌∷◌, ◌==◌, truthy_text,
}
use obsidian_sync.Engine.Convert.{created_event, modified_event, deleted_event}
use obsidian_sync.Watcher.{
  Timer, Watcher, new_watcher, is_ignored, on_changed, on_deleted, fire_change,
}
use obsidian_sync.Watcher.Tracked.{armed_for}
use obsidian_sync.Watcher.Reached.{Reached, fresh, change, event_at, on_deleted-disarms}
use obsidian_sync.Watcher.Debounce.{fire_change-uncancelled}

abbrev ignored : String → Bool
ignored path = path == ".DS_Store"

abbrev first_part : String → String
first_part path = path

abbrev symlink : String → Bool
symlink path = false

abbrev watched_file : Watcher
watched_file =
    on_changed ignored first_part symlink 2 created_event 10 (event_at "a.md") new_watcher

watched_file-Reached : Reached ignored first_part symlink 2 watched_file
watched_file-Reached = change created_event 10 (event_at "a.md") new_watcher fresh

on_deleted-disarms_example :
    ((on_deleted ignored first_part symlink 2 11 (event_at "a.md") watched_file).1
      ≡ (deleted_event, "a.md") ∷ [])
    × (armed_for "a.md"
          (on_deleted ignored first_part symlink 2 11 (event_at "a.md") watched_file).0.armed
        ≡ [])
unfolding is_ignored truthy_text
on_deleted-disarms_example =
    on_deleted-disarms ignored first_part symlink 2 11 "a.md" watched_file watched_file-Reached refl

-- a timer whose thread waits while a change of the file starts the timer 1
abbrev late : Timer
late = record { id = 0; path = "a.md"; event = created_event; due = 12 }

abbrev newer : Timer
newer = record { id = 1; path = "a.md"; event = modified_event; due = 14 }

abbrev racing : Watcher
racing = record {
  timers = ("a.md", 1) ∷ [];
  armed = newer ∷ [];
  begun = late ∷ [];
  started = 2;
  last_event = none;
}

fire_change-uncancelled_example :
    (lookup "a.md" (fire_change late racing).0.timers ≡ none)
    × In newer
        (on_deleted ignored first_part symlink 2 13
          (event_at "a.md")
          (fire_change late racing).0).0.armed
    × (¬ In newer (on_deleted ignored first_part symlink 2 13 (event_at "a.md") racing).0.armed)
unfolding is_ignored truthy_text lookup
fire_change-uncancelled_example =
    fire_change-uncancelled ignored first_part symlink 2 13 late newer racing refl
      (λ (h : 1 ≡ 0). omega (arith, h)) refl (here [])
