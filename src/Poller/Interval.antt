-- ===== src/Poller/Interval.antt =====
-- The polling interval.
use obsidian_sync.Base.{
  ℕ, zero, suc, ◌+◌, ◌<◌, String, Bool, true, false, ◌≡◌, refl, Option, none, some, List, [], ◌∷◌,
  eqb, ltb, truthy_text, ◌||◌, arith, Bool-cases, inl, inr,
}
use obsidian_sync.Drive.{Change}
use obsidian_sync.Engine.{Engine}
use obsidian_sync.Poller.{
  Poller, Answer, changes_answer, token_lost, http_error, network_error, Dispatch, dispatched,
  dispatch_token_lost, dispatch_failed, new_poller, backoff, update_interval, note_failure,
  conclude, signal_token, after_dispatch, is_rate_limit, dispatch_changes, poll_answer, poll_from,
  poll_once, run,
}

-- the intervals, in 64ths of a second: 10 s and 30 s, each times a power of 1.5, up to 120 s
abbrev pub is_step : ℕ → Bool
is_step n =
    eqb n 640
    || eqb n 960
    || eqb n 1440
    || eqb n 2160
    || eqb n 3240
    || eqb n 4860
    || eqb n 7290
    || eqb n 7680
    || eqb n 1920
    || eqb n 2880
    || eqb n 4320
    || eqb n 6480

-- The interval is a step, and the failures are fewer than those that call for recovery.
pub record IsPaced (p : Poller) : Type 0 where
  pub paced : is_step p.current_interval ≡ true
  pub few_failures : p.consecutive_failures < 5

backoff-step : (n : ℕ) → is_step n ≡ true → is_step (backoff n) ≡ true
unfolding backoff
backoff-step n h = ground arith

update_interval-step :
    (found : Bool) (age : Option ℕ) (n : ℕ)
    → is_step n ≡ true
    → is_step (update_interval found age n) ≡ true
unfolding update_interval
update_interval-step found age n h = ground (arith, backoff-step n h)

module _ (on_token_invalid : Option (Engine → Engine)) where
  note_failure-IsPaced :
      (p : Poller) (e : Engine) → IsPaced p → IsPaced (note_failure on_token_invalid p e).poller
  unfolding note_failure
  note_failure-IsPaced p e h = elim (Bool-cases (ltb (p.consecutive_failures + 1) 5)) [
    | inl few ↦
        rw (few, note_failure) (record { paced = h.paced; few_failures = ground (arith, few) })
    | inr many ↦ rw (many, note_failure) (record { paced = h.paced; few_failures = omega arith })
  ]

  module _ (get_changes : Engine → String → Answer)
      (handle_remote_changes : List Change → Engine → Engine × Dispatch)
      (last_event_age : Engine → Option ℕ) where
    conclude-IsPaced :
        (found has_more : Bool) (p : Poller) (e : Engine)
        → IsPaced p
        → IsPaced
            (conclude on_token_invalid get_changes handle_remote_changes last_event_age found
              has_more p e).poller
    unfolding conclude
    conclude-IsPaced found true p e h = record { paced = refl; few_failures = h.few_failures }
    conclude-IsPaced found false p e h = record {
      paced = update_interval-step found (last_event_age e) p.current_interval h.paced;
      few_failures = h.few_failures;
    }

    after_dispatch-IsPaced :
        (ending : Dispatch) (has_more : Bool) (p : Poller) (e : Engine)
        → IsPaced p
        → IsPaced
            (after_dispatch on_token_invalid get_changes handle_remote_changes last_event_age ending
              has_more p e).poller
    unfolding after_dispatch signal_token
    after_dispatch-IsPaced dispatch_token_lost has_more p e h = record {
      paced = h.paced;
      few_failures = h.few_failures;
    }
    after_dispatch-IsPaced dispatched has_more p e h = conclude-IsPaced true has_more p e h
    after_dispatch-IsPaced dispatch_failed has_more p e h = conclude-IsPaced true has_more p e h

    dispatch_changes-IsPaced :
        (changes : List Change) (has_more : Bool) (p : Poller) (e : Engine)
        → IsPaced p
        → IsPaced
            (dispatch_changes on_token_invalid get_changes handle_remote_changes last_event_age
              changes has_more p e).poller
    unfolding dispatch_changes
    dispatch_changes-IsPaced [] has_more p e h = conclude-IsPaced false has_more p e h
    dispatch_changes-IsPaced (change ∷ changes) has_more p e h =
        let handled = handle_remote_changes (change ∷ changes) e in
        after_dispatch-IsPaced handled.1 has_more p handled.0 h

    poll_answer-IsPaced :
        (answer : Answer) (p : Poller) (e : Engine)
        → IsPaced p
        → IsPaced
            (poll_answer on_token_invalid get_changes handle_remote_changes last_event_age answer p
              e).poller
    unfolding poll_answer signal_token
    poll_answer-IsPaced (changes_answer changes new_token has_more) p e h =
        dispatch_changes-IsPaced changes has_more _ _
          (record { paced = h.paced; few_failures = omega arith })
    poll_answer-IsPaced token_lost p e h = record { paced = h.paced; few_failures = omega arith }
    poll_answer-IsPaced network_error p e h = note_failure-IsPaced p e h
    poll_answer-IsPaced (http_error status) p e h = elim (Bool-cases (is_rate_limit status)) [
      | inl limited ↦ rw limited (record { paced = refl; few_failures = h.few_failures })
      | inr other ↦ rw other (note_failure-IsPaced p e h)
    ]

    poll_from-IsPaced :
        (token : Option String) (p : Poller) (e : Engine)
        → IsPaced p
        → IsPaced
            (poll_from on_token_invalid get_changes handle_remote_changes last_event_age token p
              e).poller
    unfolding poll_from
    poll_from-IsPaced none p e h = h
    poll_from-IsPaced (some token) p e h = elim (Bool-cases (truthy_text token)) [
      | inl usable ↦ rw usable (poll_answer-IsPaced (get_changes e token) p e h)
      | inr blank ↦ rw blank h
    ]

    run-IsPaced_from :
        (n : ℕ) (p : Poller) (e : Engine)
        → IsPaced p
        → IsPaced (run on_token_invalid get_changes handle_remote_changes last_event_age n p e).0
    unfolding run poll_once
    run-IsPaced_from zero p e h = h
    run-IsPaced_from (suc n) p e h =
        run-IsPaced_from n _ _ (poll_from-IsPaced e.state.page_token p e h)

    -- However the Drive and the engine behave, after any number of polls the interval is one of twelve
    -- values from 10 s to 120 s, and the counter of failures is less than 5.
    pub run-IsPaced :
        (n : ℕ) (e : Engine)
        → IsPaced
            (run on_token_invalid get_changes handle_remote_changes last_event_age n new_poller e).0
    unfolding new_poller
    run-IsPaced n e =
        run-IsPaced_from n new_poller e (record { paced = refl; few_failures = omega arith })
