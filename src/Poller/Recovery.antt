-- ===== src/Poller/Recovery.antt =====
-- What the poller does after repeated failures, and when nothing happens.
use obsidian_sync.Base.{
  ℕ, zero, suc, ◌+◌, ◌*◌, ◌≤◌, String, true, false, ◌≡◌, ◌⊎◌, refl, ap, ◌∙◌, inl, inr, Option, none,
  some, List, [], ltb, truthy_text, arith,
}
use obsidian_sync.Drive.{Change}
use obsidian_sync.Engine.{Engine}
use obsidian_sync.Poller.{
  Poller, Answer, changes_answer, http_error, network_error, Dispatch, is_rate_limit, backoff,
  update_interval, is_active, invoke_token_invalid, note_failure, conclude, dispatch_changes,
  advance_token, poll_answer, poll_from, poll_once, run, poll_max_interval,
}
use obsidian_sync.Poller.Interval.{IsPaced, is_step}

-- an error of the network, or an error response that is no rate limit
abbrev pub IsFailure : Answer → Type 0
IsFailure answer =
    (answer ≡ network_error)
    ⊎ ((status : Option String) × (answer ≡ http_error status) × (is_rate_limit status ≡ false))

-- the engine has this page token
abbrev pub HasToken : String → Engine → Type 0
HasToken token e = (e.state.page_token ≡ some token) × (truthy_text token ≡ true)

backoff-grows : (a b n : ℕ) → a ≤ n → b * 2 ≤ a * 3 → b ≤ 7680 → b ≤ backoff n
unfolding backoff
backoff-grows a b n h k c = ground arith

module _ (on_token_invalid : Option (Engine → Engine)) (get_changes : Engine → String → Answer)
    (handle_remote_changes : List Change → Engine → Engine × Dispatch)
    (last_event_age : Engine → Option ℕ) (token : String) (e : Engine)
    (has : HasToken token e) where
  poll_once-token :
      (p : Poller)
      → poll_once on_token_invalid get_changes handle_remote_changes last_event_age p e
        ≡ poll_answer on_token_invalid get_changes handle_remote_changes last_event_age
            (get_changes e token)
            p
            e
  unfolding poll_once poll_from
  poll_once-token p =
      ap (λ t. poll_from on_token_invalid get_changes handle_remote_changes last_event_age t p e)
        has.0
      ∙ rw has.1 refl

  failing_poll :
      IsFailure (get_changes e token)
      → (p : Poller)
      → poll_once on_token_invalid get_changes handle_remote_changes last_event_age p e
        ≡ note_failure on_token_invalid p e
  unfolding poll_answer
  failing_poll (inl h) p = poll_once-token p ∙ rw h refl
  failing_poll (inr (status, h, other)) p = poll_once-token p ∙ rw (h, other) refl

  -- If the engine has a page token and the Drive keeps failing, so that with those before there are five
  -- failures in a row, then after the last one the callback has been invoked, the failures are counted from 0 again, and the
  -- interval is as it was.
  pub run-recovers :
      (n : ℕ) (p : Poller)
      → IsFailure (get_changes e token)
      → p.consecutive_failures + n ≡ 4
      → run on_token_invalid get_changes handle_remote_changes last_event_age (suc n) p e
        ≡ (record p { consecutive_failures = 0 }, invoke_token_invalid on_token_invalid e)
  unfolding run note_failure
  run-recovers zero p fails h =
      let last : ltb (p.consecutive_failures + 1) 5 ≡ false = ground (arith, h) in
      rw (failing_poll fails p, note_failure, last) refl
  run-recovers (suc n) p fails h =
      let early : ltb (p.consecutive_failures + 1) 5 ≡ true = ground (arith, h) in
      let next = record p { consecutive_failures = p.consecutive_failures + 1 } in
      rw (failing_poll fails p, note_failure, early) (run-recovers n next fails (omega arith))

-- a poll that finds nothing, when no file was changed for a minute either
abbrev pub IsQuiet : (Engine → String → Answer) → (Engine → Option ℕ) → String → Engine → Type 0
IsQuiet get_changes last_event_age token e =
    (get_changes e token ≡ changes_answer [] none false) × (is_active (last_event_age e) ≡ false)

abbrev after_quiet : Poller → Poller
after_quiet p = record p { current_interval = backoff p.current_interval; consecutive_failures = 0 }

abbrev quiet_times : ℕ → Poller → Poller
quiet_times zero p = p
quiet_times (suc n) p = quiet_times n (after_quiet p)

backoff-short : (n : ℕ) → backoff n ≤ 7680
unfolding backoff
backoff-short n = ground arith

backoff-seven :
    (n : ℕ)
    → is_step n ≡ true
    → backoff (backoff (backoff (backoff (backoff (backoff (backoff n)))))) ≡ 7680
backoff-seven n h =
    let b1 = backoff-grows 640 960 n (ground (arith, h)) (omega arith) (omega arith) in
    let b2 = backoff-grows 960 1440 _ b1 (omega arith) (omega arith) in
    let b3 = backoff-grows 1440 2160 _ b2 (omega arith) (omega arith) in
    let b4 = backoff-grows 2160 3240 _ b3 (omega arith) (omega arith) in
    let b5 = backoff-grows 3240 4860 _ b4 (omega arith) (omega arith) in
    let b6 = backoff-grows 4860 7290 _ b5 (omega arith) (omega arith) in
    let b7 = backoff-grows 7290 7680 _ b6 (omega arith) (omega arith) in
    omega (arith, b7, backoff-short (backoff (backoff (backoff (backoff (backoff (backoff n)))))))

module _ (on_token_invalid : Option (Engine → Engine)) (get_changes : Engine → String → Answer)
    (handle_remote_changes : List Change → Engine → Engine × Dispatch)
    (last_event_age : Engine → Option ℕ) (token : String) (e : Engine) (has : HasToken token e)
    (quiet : IsQuiet get_changes last_event_age token e) where
  quiet_poll :
      (p : Poller)
      → poll_once on_token_invalid get_changes handle_remote_changes last_event_age p e
        ≡ record { poller = after_quiet p; engine = e; found = false }
  unfolding poll_answer dispatch_changes conclude advance_token update_interval
  quiet_poll p =
      poll_once-token on_token_invalid get_changes handle_remote_changes last_event_age token e has
        p
      ∙ simp (quiet.0, quiet.1)

  run-quiet :
      (n : ℕ) (p : Poller)
      → run on_token_invalid get_changes handle_remote_changes last_event_age n p e
        ≡ (quiet_times n p, e)
  unfolding run
  run-quiet zero p = refl
  run-quiet (suc n) p = rw (quiet_poll p) (run-quiet n (after_quiet p))

  -- From any paced poller, seven polls that find nothing bring the interval to two minutes, if no file
  -- of the vault was changed for a minute either.
  pub run-poll_max_interval :
      (p : Poller)
      → IsPaced p
      → (run on_token_invalid get_changes handle_remote_changes last_event_age 7 p
          e).0.current_interval
        ≡ poll_max_interval
  run-poll_max_interval p h =
      ap (λ r. r.0.current_interval) (run-quiet 7 p) ∙ backoff-seven p.current_interval h.paced
