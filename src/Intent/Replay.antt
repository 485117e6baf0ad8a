-- ===== src/Intent/Replay.antt =====
-- What a replay leaves in the log.
use mathlib.Core.List.{Sublistᴰ}
use text.Mathlib.TextPositions.{eq_refl}
use obsidian_sync.Base.{
  ℕ, ◌+◌, String, Bool, true, false, ◌≡◌, refl, sym, ap, subst, ◌∙◌, [], ◌∷◌, ◌++◌, append_assoc,
  Dict, contains, keys, remove, Distinct, length, arith, eq_iff, Bool-cases, inl, inr,
}
use obsidian_sync.Intent.{State, get_unresolved, resolve, replay, replay_all}
use obsidian_sync.Intent.Unresolved.{get_unresolved-resolve}
use obsidian_sync.Intent.Compact.{get_unresolved-Distinct}

module _ {ℓ} {A : Type ℓ} where
  remove-absent : (k : String) (d : Dict A) → contains (keys d) k ≡ false → remove k d ≡ d
  unfolding remove contains keys
  remove-absent k [] h = refl
  remove-absent k ((j, v) ∷ d) h = ground (arith, remove-absent k d)

  contains-middle :
      (pre : Dict A) (id : String) (a : A) (d : Dict A)
      → contains (keys (pre ++ ((id, a) ∷ d))) id ≡ true
  unfolding contains keys
  contains-middle [] id a d = rw (eq_refl id)
  contains-middle ((j, v) ∷ pre) id a d = ground (arith, contains-middle pre id a d)

  pub remove-middle :
      (pre : Dict A) (id : String) (a : A) (d : Dict A)
      → Distinct (pre ++ ((id, a) ∷ d))
      → remove id (pre ++ ((id, a) ∷ d)) ≡ pre ++ d
  unfolding remove contains keys
  remove-middle [] id a d u = ground (arith, remove-absent id d, eq_iff id id)
  remove-middle ((j, v) ∷ pre) id a d u =
      let there = contains-middle pre id a d in
      ground (arith, eq_iff j id, remove-middle pre id a d u.1, u.0, there)

module _ {ℓ} {A W : Type ℓ} where
  -- the intents that a replay of `d` leaves, and the number that it replayed
  abbrev pub Leaves : Dict A → Dict A → State A W × ℕ → Type ℓ
  Leaves pre d result =
      (failed : Dict A) × (get_unresolved result.0.log ≡ pre ++ failed)
      × Sublistᴰ failed d
      × (result.1 + length failed ≡ length d)

module _ {ℓ} {A W : Type ℓ} (execute : A → State A W → State A W × Bool)
    (quiet : (a : A) (s : State A W) → (execute a s).0.log ≡ s.log) where
  replay_all-Leaves :
      (pre d : Dict A) (s : State A W)
      → get_unresolved s.log ≡ pre ++ d
      → Leaves pre d (replay_all execute d s)
  unfolding replay_all
  replay_all-Leaves pre [] s h = ([], h, Sublistᴰ.slnil, refl)
  replay_all-Leaves pre ((id, a) ∷ d) s h = elim (Bool-cases (execute a s).1) [
    | inl done ↦
        let s' = (execute a s).0 in
        let next = record s' { log = resolve id s'.log } in
        let distinct = subst Distinct h (get_unresolved-Distinct s.log) in
        let left : get_unresolved next.log ≡ pre ++ d =
          get_unresolved-resolve s'.log id
          ∙ ap (remove id) (ap get_unresolved (quiet a s) ∙ h)
          ∙ remove-middle pre id a d distinct in
        let (failed, e, sub, n) = replay_all-Leaves pre d next left in
        rw done (failed, e, Sublistᴰ.cons sub, omega arith)
    | inr raised ↦
        let s' = (execute a s).0 in
        let left : get_unresolved s'.log ≡ (pre ++ ((id, a) ∷ [])) ++ d =
          ap get_unresolved (quiet a s) ∙ h ∙ sym (append_assoc pre ((id, a) ∷ []) d) in
        let (failed, e, sub, n) = replay_all-Leaves (pre ++ ((id, a) ∷ [])) d s' left in
        rw raised (
          (id, a) ∷ failed,
          e ∙ append_assoc pre ((id, a) ∷ []) failed,
          Sublistᴰ.cons-cons refl sub,
          omega arith,
        )
  ]

  -- If executing writes nothing to the log, a replay resolves exactly the intents whose execution
  -- raised nothing: what is left is a part of the unresolved intents, in their order, and it is as
  -- long as the unresolved intents less the number returned.
  pub replay-Leaves : (s : State A W) → Leaves [] (get_unresolved s.log) (replay execute s)
  unfolding replay
  replay-Leaves s = replay_all-Leaves [] (get_unresolved s.log) s refl

  -- every intent counts when no execution raises
  replay_all-count :
      (ok : (a : A) (t : State A W) → (execute a t).1 ≡ true) (d : Dict A) (s : State A W)
      → (replay_all execute d s).1 ≡ length d
  unfolding replay_all
  replay_all-count ok [] s = refl
  replay_all-count ok ((id, a) ∷ d) s =
      let s' = (execute a s).0 in
      let next = record s' { log = resolve id s'.log } in
      let rest = replay_all-count ok d next in rw (ok a s) omega arith

  nothing_left : (d : Dict A) → length d ≡ 0 → d ≡ []
  nothing_left [] h = refl
  nothing_left (e ∷ d) h = absurd (omega arith)

  replay-count :
      (s : State A W)
      → ((a : A) (t : State A W) → (execute a t).1 ≡ true)
      → (replay execute s).1 ≡ length (get_unresolved s.log)
  unfolding replay
  replay-count s ok = replay_all-count ok (get_unresolved s.log) s

  -- If executing writes nothing to the log and never raises, nothing is left, and the number
  -- returned is that of the unresolved intents.
  pub replay-all_done :
      (s : State A W)
      → ((a : A) (t : State A W) → (execute a t).1 ≡ true)
      → (get_unresolved (replay execute s).0.log ≡ [])
        × ((replay execute s).1 ≡ length (get_unresolved s.log))
  replay-all_done s ok =
      let n = replay-count s ok in
      let (failed, e, _, m) = replay-Leaves s in (e ∙ nothing_left failed (omega arith), n)
