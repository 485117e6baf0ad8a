-- ===== src/Vector/Update.antt =====
-- `update` advances the clock of one device, and nothing else.
use obsidian_sync.Base.{
  String, ◌≡◌, ◌≢◌, sym, ℤ, pos, ◌+ℤ◌, ◌≤ℤ◌, ◌<ℤ◌, ◌==◌, eq_iff, if◌then◌else◌, max_ℤ, max_ℤ_left,
  max_ℤ_right, lt_succ_ℤ, lookup-insert, arith, first_chars, Bool-cases, inl, inr, ≤ℤ_refl,
}
use obsidian_sync.Vector.{greater, lesser, VersionVector, counter, compare, update}
use obsidian_sync.Vector.Order.{◌≤ⱽ◌, compare_iff, IsConcurrent, IsConcurrent-of_incomparable}

module _ (v : VersionVector) (device_id : String) (now_ms : ℤ) where
  abbrev prefix : String
  prefix = first_chars 8 device_id

  pub counter-update :
      (k : String)
      → counter (update v device_id now_ms) k
        ≡ (if prefix == k then max_ℤ (counter v prefix +ℤ pos 1) now_ms else counter v k)
  unfolding counter update
  counter-update k = rw lookup-insert (ground arith)

  counter-update_self :
      counter (update v device_id now_ms) prefix ≡ max_ℤ (counter v prefix +ℤ pos 1) now_ms
  counter-update_self = rw counter-update (ground (arith, eq_iff prefix prefix))

  counter-update_grows : counter v prefix <ℤ counter (update v device_id now_ms) prefix
  counter-update_grows = rw counter-update_self (
      let step = max_ℤ_left (counter v prefix +ℤ pos 1) now_ms in
      let next = lt_succ_ℤ (counter v prefix) in omega arith)

  le-update : v ≤ⱽ update v device_id now_ms
  le-update k = rw counter-update (elim (Bool-cases (prefix == k)) [
    | inl same ↦
        let grows = counter-update_grows in
        let e = (eq_iff prefix k).0 same in rw (same, ← e, ← counter-update_self) (omega arith)
    | inr other ↦ rw other (≤ℤ_refl (counter v k))
  ])

  -- Whatever the clock says, an update gives a strictly later vector, in which the device's counter
  -- is at least the clock's reading and every other counter is as before.
  pub update_advances :
      (compare (update v device_id now_ms) v ≡ greater)
      × (now_ms ≤ℤ counter (update v device_id now_ms) prefix)
      × ((k : String) → prefix ≢ k → counter (update v device_id now_ms) k ≡ counter v k)
  update_advances = (
    (compare_iff (update v device_id now_ms) v greater).1 (
      le-update,
      λ h. let back = h prefix in let grows = counter-update_grows in absurd (omega arith),
    ),
    rw counter-update_self (max_ℤ_right (counter v prefix +ℤ pos 1) now_ms),
    λ k other. rw counter-update (ground (arith, other, eq_iff prefix k)),
  )

pub compare-update :
    (v : VersionVector) (device_id : String) (now_ms : ℤ)
    → compare v (update v device_id now_ms) ≡ lesser
compare-update v d t =
    let newer = (compare_iff (update v d t) v greater).0 (update_advances v d t).0 in
    (compare_iff v (update v d t) lesser).1 newer

-- Two devices with different prefixes that change the same file without seeing one another get
-- concurrent vectors, whatever their clocks say.
pub update-IsConcurrent :
    (v : VersionVector) (d e : String) (s t : ℤ)
    → first_chars 8 d ≢ first_chars 8 e
    → IsConcurrent (compare (update v d s) (update v e t))
update-IsConcurrent v d e s t n =
    IsConcurrent-of_incomparable (update v d s) (update v e t) (not_below d e s t (λ p. n (sym p)))
      (not_below e d t s n)
  where
    not_below :
        (d e : String) (s t : ℤ)
        → first_chars 8 e ≢ first_chars 8 d
        → ¬ (update v d s ≤ⱽ update v e t)
    not_below d e s t n h =
        let same = (update_advances v e t).2 (first_chars 8 d) n in
        let back = rw same at (h (first_chars 8 d)) in
        let grows = counter-update_grows v d s in omega arith
