-- ===== src/Poller.antt =====
-- src/poller.py: the adaptive poller. The interval counts 64ths of a second, in which every interval
-- that the source reaches by factors of 1.5 is a whole number.
pub mod Interval
pub mod Recovery
mod Tests
use obsidian_sync.Base.{
  ℕ, zero, suc, ◌+◌, ◌*◌, ◌/◌, String, Bool, true, false, ◌||◌, Option, none, some, List, [], ◌∷◌,
  ℤ, pos, ltb, leb, if◌then◌else◌, truthy_text, eqb_ℤ, int_of_text,
}
use obsidian_sync.Drive.{Change}
use obsidian_sync.State.{SyncState}
use obsidian_sync.Engine.{Engine}

abbrev pub second : ℕ
second = 64

abbrev pub poll_min_interval : ℕ
poll_min_interval = 10 * second

abbrev pub poll_max_interval : ℕ
poll_max_interval = 120 * second

abbrev pub poll_start_interval : ℕ
poll_start_interval = 30 * second

abbrev pub local_activity_window : ℕ
local_activity_window = 60 * second

abbrev pub poll_max_consecutive_failures : ℕ
poll_max_consecutive_failures = 5

-- how `get_changes` ends
pub data Answer : Type 0 where
  changes_answer : List Change → Option String → Bool → Answer
  token_lost : Answer
  -- the status of the response, if there is one
  http_error : Option String → Answer
  network_error : Answer

-- how `handle_remote_changes` ends
pub data Dispatch : Type 0 where
  dispatched dispatch_token_lost dispatch_failed : Dispatch

pub record Poller : Type 0 where
  pub current_interval : ℕ
  pub token_invalid_signal : Bool
  pub consecutive_failures : ℕ

unfoldable pub new_poller : Poller
new_poller = record {
  current_interval = poll_start_interval;
  token_invalid_signal = false;
  consecutive_failures = 0;
}

-- the poller, the engine and what `poll_once` returns
pub record Polled : Type 0 where
  pub poller : Poller
  pub engine : Engine
  pub found : Bool

-- `_is_rate_limit`
unfoldable pub is_rate_limit : Option String → Bool
is_rate_limit none = false
is_rate_limit (some status) = elim (int_of_text status) [
  | none ↦ false
  | some n ↦ eqb_ℤ n (pos 429)
]

unfoldable pub backoff : ℕ → ℕ
backoff interval =
    let longer = interval * 3 / 2 in
    let capped = if ltb poll_max_interval longer then poll_max_interval else longer in
    if ltb capped poll_min_interval then poll_min_interval else capped

-- `last_event_age() < LOCAL_ACTIVITY_WINDOW_SECONDS`; without an event the age is infinite
unfoldable pub is_active : Option ℕ → Bool
is_active none = false
is_active (some age) = ltb age local_activity_window

unfoldable pub update_interval : Bool → Option ℕ → ℕ → ℕ
unfolding is_active backoff
update_interval found_changes age interval =
    if found_changes
    then poll_min_interval
    else if is_active age
    then poll_start_interval
    else backoff interval

-- `on_token_invalid` is the callback, whose exceptions are caught.
module _ (on_token_invalid : Option (Engine → Engine)) where
  unfoldable pub invoke_token_invalid : Engine → Engine
  invoke_token_invalid e = elim on_token_invalid [ none ↦ e | some callback ↦ callback e ]

  unfoldable pub note_failure : Poller → Engine → Polled
  unfolding invoke_token_invalid
  note_failure p e =
      let failures = p.consecutive_failures + 1 in
      if ltb failures poll_max_consecutive_failures
      then record {
        poller = record p { consecutive_failures = failures };
        engine = e;
        found = false;
      }
      else record {
        poller = record p { consecutive_failures = 0 };
        engine = invoke_token_invalid e;
        found = false;
      }

  module _ (get_changes : Engine → String → Answer)
      (handle_remote_changes : List Change → Engine → Engine × Dispatch)
      (last_event_age : Engine → Option ℕ) where
    -- the end of `poll_once`
    unfoldable pub conclude : Bool → Bool → Poller → Engine → Polled
    unfolding update_interval
    conclude found has_more p e = record {
      poller = record p {
        current_interval =
            if has_more
            then poll_min_interval
            else update_interval found (last_event_age e) p.current_interval;
      };
      engine = e;
      found = found || has_more;
    }

    -- a dispatch that lost the token
    unfoldable pub signal_token : Poller → Engine → Polled
    unfolding invoke_token_invalid
    signal_token p e = record {
      poller = record p { token_invalid_signal = true };
      engine = invoke_token_invalid e;
      found = false;
    }

    -- `if new_token: self._state.page_token = new_token`
    unfoldable pub advance_token : Option String → Engine → Engine
    advance_token none e = e
    advance_token (some token) e =
        if truthy_text token
        then record e { state = record e.state { page_token = some token } }
        else e

    -- what follows the call of the engine
    unfoldable pub after_dispatch : Dispatch → Bool → Poller → Engine → Polled
    unfolding conclude signal_token
    after_dispatch dispatch_token_lost has_more p e = signal_token p e
    after_dispatch dispatched has_more p e = conclude true has_more p e
    after_dispatch dispatch_failed has_more p e = conclude true has_more p e

    unfoldable pub dispatch_changes : List Change → Bool → Poller → Engine → Polled
    unfolding conclude after_dispatch
    dispatch_changes [] has_more p e = conclude false has_more p e
    dispatch_changes (change ∷ changes) has_more p e =
        let (e', ending) = handle_remote_changes (change ∷ changes) e in
        after_dispatch ending has_more p e'

    unfoldable pub poll_answer : Answer → Poller → Engine → Polled
    unfolding dispatch_changes advance_token signal_token note_failure is_rate_limit
    poll_answer (changes_answer changes new_token has_more) p e =
        dispatch_changes changes has_more (record p { consecutive_failures = 0 })
          (advance_token new_token e)
    poll_answer token_lost p e = signal_token (record p { consecutive_failures = 0 }) e
    poll_answer (http_error status) p e =
        if is_rate_limit status
        then record {
          poller = record p { current_interval = poll_max_interval };
          engine = e;
          found = false;
        }
        else note_failure p e
    poll_answer network_error p e = note_failure p e

    -- `poll_once` with the page token of the state
    unfoldable pub poll_from : Option String → Poller → Engine → Polled
    unfolding poll_answer
    poll_from none p e = record { poller = p; engine = e; found = false }
    poll_from (some token) p e =
        if truthy_text token
        then poll_answer (get_changes e token) p e
        else record { poller = p; engine = e; found = false }

    unfoldable pub poll_once : Poller → Engine → Polled
    unfolding poll_from
    poll_once p e = poll_from e.state.page_token p e

    -- so many turns of the loop of `run`
    unfoldable pub run : ℕ → Poller → Engine → Poller × Engine
    unfolding poll_once
    run zero p e = (p, e)
    run (suc n) p e = let polled = poll_once p e in run n polled.poller polled.engine
