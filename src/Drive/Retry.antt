-- ===== src/Drive/Retry.antt =====
-- src/drive_client.py: `_execute_with_retry`. Delays are in seconds.
pub mod Budget
mod Tests
use obsidian_sync.Base.{
  ℕ, zero, suc, ◌+◌, ◌*◌, ◌^◌, ◌≤◌, String, Bool, true, false, ◌&&◌, ◌||◌, Option, none, some, List,
  [], ◌∷◌, ltb, leb, eqb, if◌then◌else◌,
}

abbrev pub retry_max_attempts : ℕ
retry_max_attempts = 3

abbrev pub retry_base_delay : ℕ
retry_base_delay = 1

abbrev pub rate_limit_max_attempts : ℕ
rate_limit_max_attempts = 10

abbrev pub rate_limit_max_delay : ℕ
rate_limit_max_delay = 300

-- how one request ends; the status is `none` if it is no integer
pub data Response (A : Type 0) : Type 0 where
  answered : A → Response A
  http_status : Option ℕ → Response A
  no_network : Response A

-- how `_execute_with_retry` ends: with the result, or with an exception
pub data Executed (A : Type 0) : Type 0 where
  returned : A → Executed A
  file_missing : String → Executed A
  token_gone : Executed A
  -- the last request's own exception
  passed_on : Executed A

-- what the loop does with a response
pub data Step (A : Type 0) : Type 0 where
  stop : Executed A → Step A
  wait_rate : Step A
  wait_error : Step A

abbrev pub min_ℕ : ℕ → ℕ → ℕ
min_ℕ a b = if ltb b a then b else a

module _ {A : Type 0} (not_found_file_id : Option String) where
  -- the branches on the status, for the attempts so far
  unfoldable pub status_step : ℕ → ℕ → ℕ → Step A
  status_step attempt rate_attempt status =
      if eqb status 401 || eqb status 403
      then stop passed_on
      else if eqb status 404
      then elim not_found_file_id [ none ↦ stop passed_on | some id ↦ stop (file_missing id) ]
      else if eqb status 410
      then stop token_gone
      else if eqb status 429
      then (if leb rate_limit_max_attempts rate_attempt then stop passed_on else wait_rate)
      else if leb 500 status && ltb status 600
      then (if leb retry_max_attempts attempt then stop passed_on else wait_error)
      else stop passed_on

  unfoldable pub response_step : ℕ → ℕ → Response A → Step A
  unfolding status_step
  response_step attempt rate_attempt (answered a) = stop (returned a)
  response_step attempt rate_attempt (http_status none) = stop passed_on
  response_step attempt rate_attempt (http_status (some status)) =
      status_step attempt rate_attempt status
  response_step attempt rate_attempt no_network =
      if leb retry_max_attempts attempt then stop passed_on else wait_error

  -- The loop: its end, and the delays it waited. `respond n` is the response to the request after n
  -- others. `none` if the fuel is too little.
  unfoldable pub requests : (ℕ → Response A) → ℕ → ℕ → ℕ → ℕ → List ℕ → Option (Executed A × List ℕ)
  unfolding response_step
  requests respond zero attempt rate_attempt rate_delay waited = none
  requests respond (suc fuel) attempt rate_attempt rate_delay waited =
      elim (response_step attempt rate_attempt (respond (attempt + rate_attempt))) [
        | stop ending ↦ some (ending, waited)
        | wait_rate ↦
            requests respond fuel attempt (rate_attempt + 1)
              (min_ℕ (rate_delay * 2) rate_limit_max_delay)
              (min_ℕ rate_delay rate_limit_max_delay ∷ waited)
        | wait_error ↦
            requests respond fuel (attempt + 1) rate_attempt rate_delay
              (retry_base_delay * 2 ^ attempt ∷ waited)
      ]

  unfoldable pub execute_with_retry : (ℕ → Response A) → Option (Executed A × List ℕ)
  unfolding requests
  execute_with_retry respond = requests respond 14 0 0 retry_base_delay []
