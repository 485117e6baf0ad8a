-- ===== src/Poller/Tests.antt =====
-- The theorems on the poller at a Drive that fails.
use obsidian_sync.Base.{ℕ, String, false, ◌≡◌, refl, inl, Option, none, some, List, truthy_text}
use obsidian_sync.Drive.{Change}
use obsidian_sync.Engine.{Engine}
use obsidian_sync.Engine.Tests.{engine}
use obsidian_sync.Poller.{
  Poller, Answer, network_error, Dispatch, dispatched, new_poller, invoke_token_invalid, run,
}
use obsidian_sync.Poller.Interval.{IsPaced, run-IsPaced}
use obsidian_sync.Poller.Recovery.{run-recovers}

abbrev polled_engine : Engine
polled_engine = record engine { state = record engine.state { page_token = some "17" } }

abbrev offline : Engine → String → Answer
offline e token = network_error

abbrev handled : List Change → Engine → Engine × Dispatch
handled changes e = (e, dispatched)

abbrev no_event : Engine → Option ℕ
no_event e = none

-- the callback lets the token be issued anew
abbrev reissue : Engine → Engine
reissue e = record e { state = record e.state { page_token = some "18" } }

abbrev waiting : Poller
waiting = record { current_interval = 960; token_invalid_signal = false; consecutive_failures = 0 }

run-IsPaced_example :
    IsPaced (run (some reissue) offline handled no_event 9 new_poller polled_engine).0
run-IsPaced_example = run-IsPaced (some reissue) offline handled no_event 9 polled_engine

run-recovers_example :
    run (some reissue) offline handled no_event 5 waiting polled_engine
    ≡ (waiting, invoke_token_invalid (some reissue) polled_engine)
unfolding truthy_text
run-recovers_example =
    run-recovers (some reissue) offline handled no_event "17" polled_engine (refl, refl) 4 waiting
      (inl refl) refl
