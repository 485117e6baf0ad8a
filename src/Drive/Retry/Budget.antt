-- ===== src/Drive/Retry/Budget.antt =====
-- How long the client keeps trying, and what its exceptions mean.
use obsidian_sync.Base.{
  false, ℕ, zero, suc, ◌+◌, ◌*◌, ◌^◌, ◌≤◌, ◌<◌, String, true, ◌≡◌, refl, sym, subst, ap, inl, inr,
  Option, none, some, List, [], ◌∷◌, length, ltb, leb, eqb, ◌||◌, ◌&&◌, all_of, if_intro,
  Option-cases, arith,
}
use obsidian_sync.Drive.Retry.{
  Response, answered, http_status, no_network, Executed, returned, file_missing, token_gone,
  passed_on, Step, stop, wait_rate, wait_error, status_step, response_step, requests,
  execute_with_retry, min_ℕ, rate_limit_max_delay, retry_base_delay,
}

eqb→eq : (a b : ℕ) → eqb a b ≡ true → a ≡ b
eqb→eq a b h = ground arith

short_wait : (delay : ℕ) → leb (min_ℕ delay 300) 300 ≡ true
short_wait delay = ground arith

error_wait : (attempt : ℕ) → attempt < 3 → leb (1 * 2 ^ attempt) 300 ≡ true
error_wait zero h = refl
error_wait (suc zero) h = refl
error_wait (suc (suc zero)) h = refl
error_wait (suc (suc (suc n))) h = absurd (omega arith)

module _ (A : Type 0) (not_found_file_id : Option String) where
  -- what the last response was, by how the call ends
  abbrev pub Explains : Response A → Executed A → Type 0
  Explains r (returned a) = r ≡ answered a
  Explains r (file_missing id) = (not_found_file_id ≡ some id) × (r ≡ http_status (some 404))
  Explains r token_gone = r ≡ http_status (some 410)
  Explains r passed_on =
      ((a : A) → ¬ (r ≡ answered a))
      × (¬ (r ≡ http_status (some 410)))
      × (r ≡ http_status (some 404) → not_found_file_id ≡ none)

  abbrev Allowed : ℕ → ℕ → Response A → Step A → Type 0
  Allowed attempt rate_attempt r (stop ending) = Explains r ending
  Allowed attempt rate_attempt r wait_rate = rate_attempt < 10
  Allowed attempt rate_attempt r wait_error = attempt < 3

  -- a status other than 404 and 410 is passed on
  other_status :
      (status : ℕ)
      → eqb status 404 ≡ false
      → eqb status 410 ≡ false
      → Explains (http_status (some status)) passed_on
  other_status status not_404 not_410 = (
    λ a h. cc h,
    λ h. let e : status ≡ 410 = cc h in ground (arith, e),
    λ h. let e : status ≡ 404 = cc h in absurd (ground (arith, e)),
  )

  status_step-Allowed :
      (attempt rate_attempt status : ℕ)
      → Allowed attempt rate_attempt
          (http_status (some status))
          (status_step not_found_file_id attempt rate_attempt status)
  unfolding status_step
  status_step-Allowed attempt rate_attempt status =
      let P = Allowed attempt rate_attempt (http_status (some status)) in
      if_intro P (eqb status 401 || eqb status 403) _ _
        (λ denied. other_status status (ground arith) (ground arith))
        (λ _.
          if_intro P (eqb status 404) _ _
            (λ missing.
              let e : status ≡ 404 = eqb→eq status 404 missing in
              elim (Option-cases not_found_file_id) [
                | inl absent ↦ rw absent (
                  λ a h. cc h,
                  λ h. let k : status ≡ 410 = cc h in ground (arith, e, k),
                  λ h. refl,
                )
                | inr (id, there) ↦ rw there (refl, ap (λ n. http_status (some n)) e)
              ])
            (λ not_404.
              if_intro P (eqb status 410) _ _
                (λ gone. ap (λ n. http_status (some n)) (eqb→eq status 410 gone))
                (λ not_410.
                  if_intro P (eqb status 429) _ _
                    (λ _.
                      if_intro P (leb 10 rate_attempt) _ _
                        (λ _. other_status status not_404 not_410) (λ few. ground (arith, few)))
                    (λ _.
                      if_intro P (leb 500 status && ltb status 600) _ _
                        (λ _.
                          if_intro P (leb 3 attempt) _ _ (λ _. other_status status not_404 not_410)
                            (λ few. ground (arith, few)))
                        (λ _. other_status status not_404 not_410)))))

  response_step-Allowed :
      (attempt rate_attempt : ℕ) (r : Response A)
      → Allowed attempt rate_attempt r (response_step not_found_file_id attempt rate_attempt r)
  unfolding response_step
  response_step-Allowed attempt rate_attempt (answered a) = refl
  response_step-Allowed attempt rate_attempt (http_status none) =
      (λ a h. cc h, λ h. cc h, λ h. absurd (cc h))
  response_step-Allowed attempt rate_attempt (http_status (some status)) =
      status_step-Allowed attempt rate_attempt status
  response_step-Allowed attempt rate_attempt no_network =
      if_intro (Allowed attempt rate_attempt no_network) (leb 3 attempt) _ _
        (λ _. (λ a h. cc h, λ h. absurd (cc h), λ h. absurd (cc h))) (λ few. ground (arith, few))

  -- The call has ended, after so many waits of at most 300 s, and its end is explained by the last
  -- response.
  abbrev pub Ends : (ℕ → Response A) → Option (Executed A × List ℕ) → Type 0
  Ends respond r =
      (ending : Executed A) × (waits : List ℕ) × (r ≡ some (ending, waits))
      × (length waits ≤ 13)
      × (all_of (λ wait. leb wait 300) waits ≡ true)
      × Explains (respond (length waits)) ending

  -- what the loop keeps
  record Goes (fuel attempt rate_attempt : ℕ) (waits : List ℕ) : Type 0 where
    fuel_left : fuel + attempt + rate_attempt ≡ 14
    errors : attempt ≤ 3
    limits : rate_attempt ≤ 10
    counted : length waits ≡ attempt + rate_attempt
    short : all_of (λ wait. leb wait 300) waits ≡ true

  step-Ends :
      (respond : ℕ → Response A) (fuel attempt rate_attempt rate_delay : ℕ) (waits : List ℕ)
      → Goes (suc fuel) attempt rate_attempt waits
      → ((attempt rate_attempt rate_delay : ℕ) (waits : List ℕ)
          → Goes fuel attempt rate_attempt waits
          → Ends respond
              (requests not_found_file_id respond fuel attempt rate_attempt rate_delay waits))
      → (step : Step A) → Allowed attempt rate_attempt (respond (attempt + rate_attempt)) step
      → Ends respond (elim step as (λ x. Option (Executed A × List ℕ)) [
        | stop ending ↦ some (ending, waits)
        | wait_rate ↦
            requests not_found_file_id respond fuel attempt
              (rate_attempt + 1)
              (min_ℕ (rate_delay * 2) rate_limit_max_delay)
              (min_ℕ rate_delay rate_limit_max_delay ∷ waits)
        | wait_error ↦
            requests not_found_file_id respond fuel
              (attempt + 1)
              rate_attempt
              rate_delay
              (retry_base_delay * 2 ^ attempt ∷ waits)
      ])
  unfolding all_of
  step-Ends respond fuel attempt rate_attempt rate_delay waits g later (stop ending) h = (
    ending,
    waits,
    refl,
    omega (arith, g.errors, g.limits, g.counted),
    g.short,
    subst (λ k. Explains (respond k) ending) (sym g.counted) h,
  )
  step-Ends respond fuel attempt rate_attempt rate_delay waits g later wait_rate h =
      later attempt (rate_attempt + 1) _ _ (record {
        fuel_left = omega (arith, g.fuel_left);
        errors = g.errors;
        limits = omega arith;
        counted = omega (arith, g.counted);
        short = ground (arith, short_wait rate_delay, g.short);
      })
  step-Ends respond fuel attempt rate_attempt rate_delay waits g later wait_error h =
      later (attempt + 1) rate_attempt _ _ (record {
        fuel_left = omega (arith, g.fuel_left);
        errors = omega arith;
        limits = g.limits;
        counted = omega (arith, g.counted);
        short = ground (arith, error_wait attempt h, g.short);
      })

  requests-Ends :
      (respond : ℕ → Response A) (fuel attempt rate_attempt rate_delay : ℕ) (waits : List ℕ)
      → Goes fuel attempt rate_attempt waits
      → Ends respond (requests not_found_file_id respond fuel attempt rate_attempt rate_delay waits)
  unfolding requests
  requests-Ends respond zero attempt rate_attempt rate_delay waits g =
      absurd (omega (arith, g.fuel_left, g.errors, g.limits))
  requests-Ends respond (suc fuel) attempt rate_attempt rate_delay waits g =
      step-Ends respond fuel attempt rate_attempt rate_delay waits g (requests-Ends respond fuel)
        (response_step not_found_file_id attempt rate_attempt (respond (attempt + rate_attempt)))
        (response_step-Allowed attempt rate_attempt (respond (attempt + rate_attempt)))

-- However the Drive responds, a call ends after at most 14 requests and 13 waits, each of at most 300 s:
-- with the result of the last request exactly if it was answered, with a lost token exactly if its
-- response was a 410, with the missing file exactly if it was a 404 and the call names a file, and
-- else with the last request's own exception.
pub execute_with_retry-Ends :
    (A : Type 0) (not_found_file_id : Option String) (respond : ℕ → Response A)
    → Ends A not_found_file_id respond (execute_with_retry not_found_file_id respond)
unfolding execute_with_retry all_of
execute_with_retry-Ends A not_found_file_id respond =
    requests-Ends A not_found_file_id respond 14 0 0 1 [] (record {
      fuel_left = refl;
      errors = omega arith;
      limits = omega arith;
      counted = refl;
      short = refl;
    })
