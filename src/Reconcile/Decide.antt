-- ===== src/Reconcile/Decide.antt =====
-- What each decision of `decide` rests on.
use obsidian_sync.Base.{
  String, true, false, ◌≡◌, refl, ap, Option, none, some, ℤ, keys, values, if_intro, ltb_ℤ→≤ℤ,
  ltb_ℤ_false, ◌≤ℤ◌, eqb_ℤ_iff, eq_iff, arith, ltb_ℤ, lt_text,
}
use obsidian_sync.Vector.{
  VectorOrdering, equal, greater, lesser, concurrent_greater, concurrent_lesser, counter, compare,
  merge,
}
use obsidian_sync.Vector.Order.{◌≤ⱽ◌, Describes, compare_iff}
use obsidian_sync.State.{FileEntry}
use obsidian_sync.Reconcile.{
  Action, no_op, upload, download, delete_remote, delete_local, update_vector_only,
  absorb_remote_tombstone, max_value, max_key, id_or_empty, resolve_conflict, same_md5,
  same_content, decide_by_order, decide,
}

-- neither file has all events of the other
abbrev pub Conflict : FileEntry → FileEntry → Type 0
Conflict local remote =
    (¬ (local.version ≤ⱽ remote.version)) × (¬ (remote.version ≤ⱽ local.version))

-- the first file has all events of the second, and more
abbrev pub Newer : FileEntry → FileEntry → Type 0
Newer a b = (b.version ≤ⱽ a.version) × (¬ (a.version ≤ⱽ b.version))

-- the highest clock value that a file's vector holds
abbrev pub highest_clock : FileEntry → ℤ
highest_clock e = max_value (values e.version.counters)

-- What an action on two known files rests on.
abbrev pub Justified : Action → FileEntry → FileEntry → Type 0
Justified (no_op reason) local remote =
    (k : String) → counter local.version k ≡ counter remote.version k
Justified (upload none) local remote = Newer local remote × (local.deleted ≡ false)
Justified (upload (some copy)) local remote =
    Conflict local remote × (copy ≡ remote) × (highest_clock remote ≤ℤ highest_clock local)
Justified (download id none) local remote =
    Newer remote local × (remote.deleted ≡ false) × (id ≡ id_or_empty remote)
Justified (download id (some copy)) local remote =
    Conflict local remote
    × (copy ≡ local)
    × (id ≡ id_or_empty remote)
    × (highest_clock local ≤ℤ highest_clock remote)
Justified (delete_remote id) local remote =
    Newer local remote × (local.deleted ≡ true) × (id ≡ id_or_empty remote)
Justified delete_local local remote = Newer remote local × (remote.deleted ≡ true)
Justified (update_vector_only merged) local remote =
    (local.deleted ≡ false)
    × (remote.deleted ≡ false)
    × ((md5 : String) × (local.md5 ≡ some md5) × (remote.md5 ≡ some md5))
    × (local.size ≡ remote.size)
    × (merged ≡ some (merge local.version remote.version))
Justified (absorb_remote_tombstone entry) local remote = ⊥

same_md5_lem :
    (a b : Option String) → same_md5 a b ≡ true → (md5 : String) × (a ≡ some md5) × (b ≡ some md5)
unfolding same_md5
same_md5_lem none b h = cc
same_md5_lem (some a) none h = cc
same_md5_lem (some a) (some b) h = (b, ap some ((eq_iff a b).0 h), refl)

same_content_lem :
    (local remote : FileEntry)
    → same_content local remote ≡ true
    → Justified (update_vector_only (some (merge local.version remote.version))) local remote
unfolding same_content
same_content_lem local remote h = (
  ground arith,
  ground arith,
  same_md5_lem local.md5 remote.md5 (ground arith),
  (eqb_ℤ_iff local.size remote.size).0 (ground arith),
  refl,
)

resolve_conflict-Justified :
    (local remote : FileEntry)
    → Conflict local remote
    → Justified (resolve_conflict local remote) local remote
unfolding resolve_conflict
resolve_conflict-Justified local remote c =
    let l = highest_clock local in
    let r = highest_clock remote in
    if_intro P (ltb_ℤ r l) _ _ (λ h. (c, refl, ltb_ℤ→≤ℤ r l h))
      (λ ge.
        if_intro P (ltb_ℤ l r) _ _ (λ h. (c, refl, refl, ltb_ℤ→≤ℤ l r h))
          (λ le.
            if_intro P
              (lt_text (max_key (keys remote.version.counters))
                (max_key (keys local.version.counters)))
              _ _ (λ _. (c, refl, refl, ltb_ℤ_false r l ge)) (λ _. (c, refl, ltb_ℤ_false l r le))))
  where
    P : Action → Type 0
    P a = Justified a local remote

by_order-Justified :
    (o : VectorOrdering) (local remote : FileEntry)
    → Describes o local.version remote.version
    → Justified (decide_by_order o local remote) local remote
unfolding decide_by_order
by_order-Justified equal local remote d = d
by_order-Justified greater local remote d =
    if_intro (λ a. Justified a local remote) local.deleted _ _ (λ gone. (d, gone, refl))
      (λ here. (d, here))
by_order-Justified lesser local remote d =
    if_intro (λ a. Justified a local remote) remote.deleted _ _ (λ gone. (d, gone))
      (λ here. (d, here, refl))
by_order-Justified concurrent_greater local remote d =
    resolve_conflict-Justified local remote (d.0, d.1)
by_order-Justified concurrent_lesser local remote d =
    resolve_conflict-Justified local remote (d.0, d.1)

-- Every decision on two known files is justified by their histories: content is replaced or deleted
-- without a conflict copy only where the other side has every event of the side that gives way and
-- more, a tombstone is what deletes, a conflict names the losing side as the copy and is won by a side
-- whose highest clock value is not below the other's, and no transfer takes place only where the
-- vectors agree, or where both files are present with the same size and the same known hash.
pub decide-Justified :
    (local remote : FileEntry) → Justified (decide (some local) (some remote)) local remote
unfolding decide
decide-Justified local remote =
    let o = compare local.version remote.version in
    if_intro (λ a. Justified a local remote) (same_content local remote) _ _
      (λ same. same_content_lem local remote same)
      (λ _. by_order-Justified o local remote ((compare_iff local.version remote.version o).0 refl))
