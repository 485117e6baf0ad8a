-- ===== src/Convergence/Retry.antt =====
-- The retry loop: how often it tries, and what it writes in the end.
use obsidian_sync.Base.{
  ℕ, zero, suc, ◌+◌, ◌*◌, ◌≤◌, String, Bool, true, false, ◌≡◌, refl, ap, Option, none, some, List,
  [], ◌∷◌, length, if◌then◌else◌, arith, if_intro,
}
use obsidian_sync.Convergence.{
  ConvergenceState, SharedFile, to_shared, from_shared, Callbacks, Outcome, next_backoff, attempts,
  retry_update, max_backoff, waited, max_retries,
}

-- every wait is at most this long
abbrev pub AllWithin : ℕ → List ℕ → Type 0
AllWithin n [] = Unit
AllWithin n (x ∷ xs) = (x ≤ n) × AllWithin n xs

next_backoff_le : (b : ℕ) → next_backoff b ≤ max_backoff
unfolding next_backoff
next_backoff_le b = ground arith

module _ {W : Type 0} (c : Callbacks W) (apply_fn : ConvergenceState → ConvergenceState) where
  abbrev put : SharedFile × String → W → W × Bool
  put a w = c.write (to_shared (apply_fn (from_shared a.0))) a.1 w

  -- what the last attempt gives
  last_intro {ℓ} :
      (P : Outcome W → Type ℓ) (backoff : ℕ) (w : W)
      → ((c.read w).1 ≡ none → P (record { world = (c.read w).0; success = false; waits = [] }))
      → ((a : SharedFile × String)
          → (c.read w).1 ≡ some a
          → P (record {
            world = (put a (c.read w).0).0;
            success = (put a (c.read w).0).1;
            waits = [];
          }))
      → P (attempts c apply_fn zero backoff w)
  unfolding attempts
  last_intro P backoff w unread answered = go (c.read w).1 refl
    where
      go :
          (o : Option (SharedFile × String))
          → (c.read w).1 ≡ o
          → P (elim o [
            | none ↦ record { world = (c.read w).0; success = false; waits = [] }
            | some a ↦ record {
              world = (put a (c.read w).0).0;
              success = (put a (c.read w).0).1;
              waits = [];
            }
          ])
      go none e = unread e
      go (some a) e = answered a e

  -- what an attempt with retries left gives
  attempt_intro {ℓ} :
      (P : Outcome W → Type ℓ) (n backoff : ℕ) (w : W)
      → P (waited c apply_fn backoff (attempts c apply_fn n (next_backoff backoff) (c.read w).0))
      → ((a : SharedFile × String)
          → (c.read w).1 ≡ some a
          → (put a (c.read w).0).1 ≡ true
          → P (record { world = (put a (c.read w).0).0; success = true; waits = [] }))
      → ((v : W)
          → P (
              waited c apply_fn
                (backoff + c.jitter backoff)
                (attempts c apply_fn n (next_backoff backoff) v)))
      → P (attempts c apply_fn (suc n) backoff w)
  unfolding attempts
  attempt_intro P n backoff w unread written failed = go (c.read w).1 refl
    where
      go :
          (o : Option (SharedFile × String))
          → (c.read w).1 ≡ o
          → P (elim o [
            | none ↦
                waited c apply_fn backoff
                  (attempts c apply_fn n (next_backoff backoff) (c.read w).0)
            | some a ↦
                if (put a (c.read w).0).1
                then record { world = (put a (c.read w).0).0; success = true; waits = [] }
                else waited c apply_fn
                    (backoff + c.jitter backoff)
                    (attempts c apply_fn n (next_backoff backoff) (put a (c.read w).0).0)
          ])
      go none e = unread
      go (some a) e =
          if_intro P (put a (c.read w).0).1 _ _ (λ done. written a e done)
            (λ _. failed (put a (c.read w).0).0)

  abbrev Waits : ℕ → Outcome W → Type 0
  Waits n r = (length r.waits ≤ n) × AllWithin 10400 r.waits

  attempts-Waits :
      ((b : ℕ) → 10 * c.jitter b ≤ 3 * b)
      → (n backoff : ℕ) (w : W) → backoff ≤ max_backoff
      → Waits n (attempts c apply_fn n backoff w)
  unfolding waited
  attempts-Waits small zero backoff w h =
      last_intro (Waits 0) backoff w (λ _. (omega arith, tt)) (λ a _. (omega arith, tt))
  attempts-Waits small (suc n) backoff w h =
      let later =
        λ (v : W). attempts-Waits small n (next_backoff backoff) v (next_backoff_le backoff) in
      let j = small backoff in
      attempt_intro (Waits (suc n)) n backoff w
        (let r = later (c.read w).0 in (omega (arith, r.0), (omega arith, r.1)))
        (λ a _ _. (omega arith, tt))
        (λ v. let r = later v in (omega (arith, r.0), (omega arith, r.1)))

  -- The loop waits at most six times between its seven attempts, and never longer than 10.4 seconds,
  -- if the random part is at most three tenths of the backoff.
  pub retry_update-waits :
      ((b : ℕ) → 10 * c.jitter b ≤ 3 * b)
      → (w : W)
      → (length (retry_update c apply_fn w).waits ≤ 6)
        × AllWithin 10400 (retry_update c apply_fn w).waits
  unfolding retry_update
  retry_update-waits small w = attempts-Waits small max_retries 500 w (omega arith)

  -- the world is that after a write, which said yes, of a reading right before it
  abbrev pub Written : W → Type 0
  Written after =
      (before : W) × (a : SharedFile × String) × ((c.read before).1 ≡ some a)
      × (c.write (to_shared (apply_fn (from_shared a.0))) a.1 (c.read before).0 ≡ (after, true))

  abbrev WrittenIf : Outcome W → Type 0
  WrittenIf r = r.success ≡ true → Written r.world

  put-Written :
      (a : SharedFile × String) (w : W)
      → (c.read w).1 ≡ some a
      → (put a (c.read w).0).1 ≡ true
      → Written (put a (c.read w).0).0
  put-Written a w e done = (w, a, e, ap (λ b. ((put a (c.read w).0).0, b)) done)

  attempts-Written : (n backoff : ℕ) (w : W) → WrittenIf (attempts c apply_fn n backoff w)
  unfolding waited
  attempts-Written zero backoff w =
      last_intro WrittenIf backoff w (λ _ h. cc h) (λ a e done. put-Written a w e done)
  attempts-Written (suc n) backoff w =
      attempt_intro WrittenIf n backoff w (attempts-Written n (next_backoff backoff) (c.read w).0)
        (λ a e done _. put-Written a w e done) (λ v. attempts-Written n (next_backoff backoff) v)

  -- An update that reports success ends with a write that the shared file took: of the updated content
  -- of a reading right before it, under the version of that very reading, however many attempts failed
  -- before. Nothing is written after it.
  pub retry_update-Written :
      (w : W)
      → (retry_update c apply_fn w).success ≡ true
      → Written (retry_update c apply_fn w).world
  unfolding retry_update
  retry_update-Written w = attempts-Written max_retries 500 w
