-- ===== src/Reconcile/Agree.antt =====
-- Two devices that see each other's file name the same side.
use mathlib.Core.Option
use obsidian_sync.Base.{
  String, Bool, true, false, not, ◌≡◌, refl, sym, ◌∙◌, ap, inl, inr, Option, none, some, ℤ, keys,
  if◌then◌else◌, eq_iff, arith, Bool-cases, ltb_ℤ, lt_text, eq_of_not_lt_text, lt_text_asym,
  ≤ℤ_antisymm,
}
use obsidian_sync.Vector.{
  VectorOrdering, equal, greater, lesser, concurrent_greater, concurrent_lesser, compare,
}
use obsidian_sync.Vector.Order.{Describes, compare_iff, IsConcurrent, IsConcurrent-of_incomparable}
use obsidian_sync.State.{FileEntry, SyncState}
use obsidian_sync.Reconcile.Actions.{
  SyncAction, upload_file, download_file, delete_remote_file, delete_local_file, rename_remote_file,
  conflict_files, local_side, remote_side, action_to_dict,
}
use obsidian_sync.Reconcile.{
  Action, no_op, upload, download, delete_remote, delete_local, update_vector_only,
  absorb_remote_tombstone, max_key, resolve_conflict, same_md5, same_content, decide_by_order,
  decide,
}
use obsidian_sync.Reconcile.Decide.{highest_clock}

-- Which side's version an action dict is for, `some true` being the local one: that of an upload and of
-- a deletion on the Drive, not that of a download and of a local deletion, and in a conflict the one
-- that is named the winner.
abbrev pub names_local : Option SyncAction → Option Bool
names_local none = none
names_local (some (upload_file path reason)) = some true
names_local (some (download_file id path reason)) = some false
names_local (some (delete_remote_file id path reason)) = some true
names_local (some (delete_local_file path reason)) = some false
names_local (some (rename_remote_file old_path new_path)) = none
names_local (some (conflict_files path local remote none reason)) = none
names_local (some (conflict_files path local remote (some local_side) reason)) = some true
names_local (some (conflict_files path local remote (some remote_side) reason)) = some false

-- the same of a decision
abbrev wins_local : Action → Option Bool
wins_local (upload _) = some true
wins_local (delete_remote _) = some true
wins_local (download _ _) = some false
wins_local delete_local = some false
wins_local _ = none

names_local-action_to_dict :
    (x : Action) (path : String) (local remote : Option FileEntry) (s : SyncState)
    → names_local (action_to_dict x path local remote s).0 ≡ wins_local x
unfolding action_to_dict
names_local-action_to_dict (no_op reason) path local remote s = refl
names_local-action_to_dict (upload none) path local remote s = refl
names_local-action_to_dict (upload (some copy)) path local remote s = refl
names_local-action_to_dict (download id none) path local remote s = refl
names_local-action_to_dict (download id (some copy)) path local remote s = refl
names_local-action_to_dict (delete_remote id) path local remote s = refl
names_local-action_to_dict delete_local path local remote s = refl
names_local-action_to_dict (update_vector_only none) path local remote s = refl
names_local-action_to_dict (update_vector_only (some merged)) path none remote s = refl
names_local-action_to_dict (update_vector_only (some merged)) path (some local) remote s = refl
names_local-action_to_dict (absorb_remote_tombstone none) path local remote s = refl
names_local-action_to_dict (absorb_remote_tombstone (some r)) path local remote s = refl

-- the largest device prefix of a file's vector
abbrev pub last_device : FileEntry → String
last_device e = max_key (keys e.version.counters)

-- The tie-breakers of `resolve_conflict` do not tell the two files apart.
abbrev pub Tied : FileEntry → FileEntry → Type 0
Tied a b = (highest_clock a ≡ highest_clock b) × (last_device a ≡ last_device b)

abbrev local_wins : ℤ → ℤ → String → String → Bool
local_wins l r local_dev remote_dev =
    if ltb_ℤ r l
    then true
    else if ltb_ℤ l r
    then false
    else if lt_text remote_dev local_dev
    then false
    else true

local_wins_swap :
    (l r : ℤ) (j k : String) → ¬ ((l ≡ r) × (j ≡ k)) → local_wins r l k j ≡ not (local_wins l r j k)
local_wins_swap l r j k n =
    ground (arith, lt_text_asym j k, lt_text_asym k j, eq_of_not_lt_text j k, n, ≤ℤ_antisymm l r)

wins_local-resolve_conflict :
    (a b : FileEntry)
    → wins_local (resolve_conflict a b)
      ≡ some (local_wins (highest_clock a) (highest_clock b) (last_device a) (last_device b))
unfolding resolve_conflict
wins_local-resolve_conflict a b = ground arith

resolve_conflict_agree :
    (a b : FileEntry)
    → ¬ Tied a b
    → wins_local (resolve_conflict b a) ≡ Option.map not (wins_local (resolve_conflict a b))
resolve_conflict_agree a b n =
    rw (wins_local-resolve_conflict a b, wins_local-resolve_conflict b a)
      (ap some
        (local_wins_swap (highest_clock a) (highest_clock b) (last_device a) (last_device b) n))

pub concurrent_decides :
    (o : VectorOrdering) (a b : FileEntry)
    → IsConcurrent o
    → decide_by_order o a b ≡ resolve_conflict a b
unfolding decide_by_order
concurrent_decides equal a b c = absurd c
concurrent_decides greater a b c = absurd c
concurrent_decides lesser a b c = absurd c
concurrent_decides concurrent_greater a b c = refl
concurrent_decides concurrent_lesser a b c = refl

wins_local_if :
    (b : Bool) (x y : Action) {w : Option Bool}
    → wins_local x ≡ w
    → wins_local y ≡ w
    → wins_local (if b then x else y) ≡ w
wins_local_if true x y h k = h
wins_local_if false x y h k = k

abbrev Mirrored : Action → Action → Type 0
Mirrored x y = wins_local y ≡ Option.map not (wins_local x)

by_order_agree :
    (o : VectorOrdering) (a b : FileEntry)
    → Describes o a.version b.version
    → (IsConcurrent o → ¬ Tied a b)
    → Mirrored (decide_by_order o a b) (decide_by_order (compare b.version a.version) b a)
unfolding decide_by_order
by_order_agree equal a b d n = rw ((compare_iff b.version a.version equal).1 (λ k. sym (d k)))
by_order_agree greater a b d n =
    rw ((compare_iff b.version a.version lesser).1 d, decide_by_order) (ground arith)
by_order_agree lesser a b d n =
    rw ((compare_iff b.version a.version greater).1 d, decide_by_order) (ground arith)
by_order_agree concurrent_greater a b d n =
    rw
      (concurrent_decides (compare b.version a.version) b a
        (IsConcurrent-of_incomparable b.version a.version d.1 d.0))
      (resolve_conflict_agree a b (n tt))
by_order_agree concurrent_lesser a b d n =
    rw
      (concurrent_decides (compare b.version a.version) b a
        (IsConcurrent-of_incomparable b.version a.version d.1 d.0))
      (resolve_conflict_agree a b (n tt))

same_md5_comm : (x y : Option String) → same_md5 x y ≡ same_md5 y x
unfolding same_md5
same_md5_comm none none = refl
same_md5_comm none (some y) = refl
same_md5_comm (some x) none = refl
same_md5_comm (some x) (some y) = ground (arith, eq_iff x y, eq_iff y x)

same_content_comm : (a b : FileEntry) → same_content b a ≡ same_content a b
unfolding same_content
same_content_comm a b = ground (arith, same_md5_comm a.md5 b.md5)

decisions_agree :
    (a b : FileEntry)
    → (IsConcurrent (compare a.version b.version) → ¬ Tied a b)
    → wins_local (decide (some b) (some a)) ≡ Option.map not (wins_local (decide (some a) (some b)))
unfolding decide
decisions_agree a b n =
    let o = compare a.version b.version in
    rw (same_content_comm a b) (elim (Bool-cases (same_content a b)) [
      | inl same ↦ rw same
      | inr differ ↦ rw differ (by_order_agree o a b ((compare_iff a.version b.version o).0 refl) n)
    ])

-- Each device is the remote of the other. Their actions are for the same side's version, or there
-- are none on both devices, unless the files are in conflict and tied in their highest clock values and
-- largest device prefixes.
pub decide_agree :
    (path : String) (a b : FileEntry) (s t : SyncState)
    → (IsConcurrent (compare a.version b.version) → ¬ Tied a b)
    → names_local (action_to_dict (decide (some b) (some a)) path (some b) (some a) t).0
      ≡ Option.map not
          (names_local (action_to_dict (decide (some a) (some b)) path (some a) (some b) s).0)
decide_agree path a b s t n =
    names_local-action_to_dict (decide (some b) (some a)) path (some b) (some a) t
    ∙ decisions_agree a b n
    ∙ ap (Option.map not)
        (sym (names_local-action_to_dict (decide (some a) (some b)) path (some a) (some b) s))
