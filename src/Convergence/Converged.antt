-- ===== src/Convergence/Converged.antt =====
-- What convergence and the test for hard deletion rest on.
use obsidian_sync.Base.{
  ℕ, ◌+◌, ◌*◌, ◌≤◌, String, Bool, true, false, ◌&&◌, ◌||◌, ◌≡◌, ◌↔◌, refl, sym, ◌∙◌, inl, inr, none,
  some, List, [], ◌∷◌, lookup, lookup-insert, keys, contains, contains-append, contains-union,
  contains-keys-insert, all_of, all_of-contains, subst, contains-sort_texts, ◌==◌, eq_iff, arith,
  Bool-cases,
}
use obsidian_sync.Convergence.{
  ConvergenceState, SharedFile, from_shared, no_devices, confirmed_of, has_confirmed,
  check_converged, read_state, gc_eligible, apply_report_seen, apply_blacklist,
}

-- the tombstones that a device has confirmed
abbrev pub confirmed_by : ConvergenceState → String → String → Bool
confirmed_by s dev_id t = contains (confirmed_of (lookup dev_id s.devices)) t

-- a known device that is not blacklisted has not confirmed the tombstone
abbrev pub Lacks : String → ConvergenceState → Type 0
Lacks t s =
    (dev_id : String) × (contains (keys s.devices) dev_id ≡ true)
    × (contains s.blacklist dev_id ≡ false)
    × (confirmed_by s dev_id t ≡ false)

all_of-false :
    (p : String → Bool) (ks : List String)
    → all_of p ks ≡ false
    → (k : String) × (contains ks k ≡ true) × (p k ≡ false)
unfolding all_of contains
all_of-false p [] h = cc
all_of-false p (k ∷ ks) h = elim (Bool-cases (p k)) [
  | inl holds ↦ let (j, there, fails) = all_of-false p ks (ground arith) in (j, ground arith, fails)
  | inr fails ↦ (k, ground (arith, eq_iff k k), fails)
]

-- A tombstone has not converged exactly if some known device that is not blacklisted lacks it.
pub check_converged_iff :
    (t : String) (s : ConvergenceState) → (check_converged t s ≡ false) ↔ Lacks t s
unfolding check_converged has_confirmed
check_converged_iff t s = (
  λ h.
      let (dev_id, known, fails) = all_of-false (has_confirmed t s) (keys s.devices) h in
      (dev_id, known, ground arith, ground arith),
  λ l.
      let there = all_of-contains (has_confirmed t s) (keys s.devices) l.0 in ground (arith, there),
)

-- After a report the device has confirmed what it had confirmed before and the reported tombstones;
-- nothing changes for the other devices.
pub confirmed_by-apply_report_seen :
    (now : ℕ) (device_id : String) (ids : List String) (s : ConvergenceState) (dev_id t : String)
    → confirmed_by (apply_report_seen now device_id ids s) dev_id t
      ≡ confirmed_by s dev_id t || device_id == dev_id && contains ids t
unfolding apply_report_seen confirmed_of
confirmed_by-apply_report_seen now device_id ids s dev_id t =
    elim (Bool-cases (device_id == dev_id)) [
      | inl same ↦
          rw
            (
              lookup-insert,
              same,
              contains-sort_texts,
              contains-union,
              (eq_iff device_id dev_id).0 same,
            )
            (ground arith)
      | inr other ↦ rw (lookup-insert, other) (ground arith)
    ]

not_true_not_false : (b : Bool) → ¬ (b ≡ false) → b ≡ true
not_true_not_false true n = refl
not_true_not_false false n = absurd (n refl)

Lacks-apply_report_seen :
    (now : ℕ) (device_id : String) (ids : List String) (s : ConvergenceState) (t : String)
    → contains (keys s.devices) device_id ≡ true
    → Lacks t (apply_report_seen now device_id ids s)
    → Lacks t s
unfolding apply_report_seen
Lacks-apply_report_seen now device_id ids s t known (dev_id, there, active, absent) =
    let confirmed = confirmed_by-apply_report_seen now device_id ids s dev_id t in
    let e = sym (contains-keys-insert device_id dev_id _ s.devices) ∙ there in
    (
      dev_id,
      was_known (device_id == dev_id) (λ t. (eq_iff device_id dev_id).0 t) e,
      active,
      ground (arith, confirmed),
    )
  where
    was_known :
        (b : Bool)
        → (b ≡ true → device_id ≡ dev_id)
        → b || contains (keys s.devices) dev_id ≡ true
        → contains (keys s.devices) dev_id ≡ true
    was_known true same h = subst (λ k. contains (keys s.devices) k ≡ true) (same refl) known
    was_known false same h = h

Lacks-apply_blacklist :
    (gone : String) (s : ConvergenceState) (t : String)
    → Lacks t (apply_blacklist gone s)
    → Lacks t s
unfolding apply_blacklist
Lacks-apply_blacklist gone s t = elim (Bool-cases (contains s.blacklist gone)) [
  | inl listed ↦ rw listed (λ l. l)
  | inr unlisted ↦ rw unlisted (λ l.
      (l.0, l.1, (let e = contains-append s.blacklist (gone ∷ []) l.0 in ground (arith, e)), l.3))
]

-- A tombstone that has converged stays so when a known device reports, or a device is blacklisted.
pub converged_stays :
    (t : String) (s : ConvergenceState) (now : ℕ) (device_id gone : String) (ids : List String)
    → contains (keys s.devices) device_id ≡ true
    → check_converged t s ≡ true
    → (check_converged t (apply_report_seen now device_id ids s) ≡ true)
      × (check_converged t (apply_blacklist gone s) ≡ true)
converged_stays t s now device_id gone ids known h =
    let before : ¬ Lacks t s = λ l. cc (h, (check_converged_iff t s).1 l) in
    (
      not_true_not_false (check_converged t (apply_report_seen now device_id ids s)) (λ e.
          before
            (Lacks-apply_report_seen now device_id ids s t known ((check_converged_iff t _).0 e))),
      not_true_not_false (check_converged t (apply_blacklist gone s))
          (λ e. before (Lacks-apply_blacklist gone s t ((check_converged_iff t _).0 e))),
    )

-- the test on a file that can be read
gc_eligible_iff :
    (t : String) (deleted_at now days : ℕ) (file : SharedFile)
    → (gc_eligible t deleted_at now days (some file) ≡ true)
      ↔ (deleted_at + days * 86400 ≤ now) × (¬ Lacks t (from_shared file))
unfolding gc_eligible read_state
gc_eligible_iff t deleted_at now days file = (
  λ h. (ground arith, λ l. let e = (check_converged_iff t (from_shared file)).1 l in ground arith),
  λ h.
      let e =
        not_true_not_false (check_converged t (from_shared file))
          (λ e. h.1 ((check_converged_iff t (from_shared file)).0 e)) in
      let late = h.0 in ground arith,
)

gc_eligible-unread :
    (t : String) (deleted_at now days : ℕ)
    → (gc_eligible t deleted_at now days none ≡ true) ↔ (deleted_at + days * 86400 ≤ now)
unfolding gc_eligible read_state check_converged all_of keys no_devices
gc_eligible-unread t deleted_at now days =
    let e : all_of (has_confirmed t no_devices) (keys no_devices.devices) ≡ true = refl in
    (λ h. ground arith, λ h. ground arith)

-- A tombstone may be deleted for good exactly if the retention has passed and no known device of the
-- shared file that is not blacklisted lacks it. If the file cannot be read, it may be deleted exactly
-- if the retention has passed, whatever the devices have confirmed.
pub gc_eligible_lem :
    (t : String) (deleted_at now days : ℕ) (file : SharedFile)
    → ((gc_eligible t deleted_at now days (some file) ≡ true)
        ↔ (deleted_at + days * 86400 ≤ now) × (¬ Lacks t (from_shared file)))
      × ((gc_eligible t deleted_at now days none ≡ true) ↔ (deleted_at + days * 86400 ≤ now))
gc_eligible_lem t deleted_at now days file =
    (gc_eligible_iff t deleted_at now days file, gc_eligible-unread t deleted_at now days)
