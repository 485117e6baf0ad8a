-- ===== src/Reconcile.antt =====
-- src/reconciler.py: the decision for one path.
pub mod Local
pub mod Actions
pub mod Remote
pub mod Incremental
pub mod Initial
pub mod Paths
pub mod Outcomes
pub mod LostUpdate
pub mod FirstStart
pub mod Decide
pub mod Agree
mod Tests
use obsidian_sync.Base.{
  String, Bool, true, false, not, ◌&&◌, ◌==◌, Option, none, some, List, [], ◌∷◌, ℤ, pos, keys,
  values, if◌then◌else◌, eqb_ℤ, ltb_ℤ, max_ℤ, max_text, lt_text, some_or,
}
use obsidian_sync.Vector.{
  VectorOrdering, equal, greater, lesser, concurrent_greater, concurrent_lesser, VersionVector,
  compare, merge,
}
use obsidian_sync.State.{FileEntry}

pub data Action : Type 0 where
  no_op : String → Action
  upload : Option FileEntry → Action
  download : String → Option FileEntry → Action
  delete_remote : String → Action
  delete_local : Action
  update_vector_only : Option VersionVector → Action
  absorb_remote_tombstone : Option FileEntry → Action

-- `max(xs) if xs else 0`
unfoldable pub max_value : List ℤ → ℤ
max_value [] = pos 0
max_value (x ∷ []) = x
max_value (x ∷ y ∷ xs) = max_ℤ x (max_value (y ∷ xs))

-- `max(xs) if xs else ""`
unfoldable pub max_key : List String → String
max_key [] = ""
max_key (x ∷ []) = x
max_key (x ∷ y ∷ xs) = max_text x (max_key (y ∷ xs))

-- `remote.drive_id or ""`
unfoldable pub id_or_empty : FileEntry → String
id_or_empty e = some_or e.drive_id ""

unfoldable pub resolve_conflict : FileEntry → FileEntry → Action
unfolding max_value max_key id_or_empty
resolve_conflict local remote =
    let local_hlc = max_value (values local.version.counters) in
    let remote_hlc = max_value (values remote.version.counters) in
    let local_dev = max_key (keys local.version.counters) in
    let remote_dev = max_key (keys remote.version.counters) in
    if ltb_ℤ remote_hlc local_hlc
    then upload (some remote)
    else if ltb_ℤ local_hlc remote_hlc
    then download (id_or_empty remote) (some local)
    else if lt_text remote_dev local_dev
    then download (id_or_empty remote) (some local)
    else upload (some remote)

unfoldable pub decide_download_or_delete : FileEntry → Action
unfolding id_or_empty
decide_download_or_delete remote =
    if remote.deleted
    then absorb_remote_tombstone (some remote)
    else download (id_or_empty remote) none

unfoldable pub decide_upload_or_delete : FileEntry → Action
decide_upload_or_delete local =
    if local.deleted then no_op "local_tombstone_no_remote" else upload none

-- two hashes that are both there and equal
unfoldable pub same_md5 : Option String → Option String → Bool
same_md5 (some a) (some b) = a == b
same_md5 _ _ = false

-- the test for identical content
unfoldable pub same_content : FileEntry → FileEntry → Bool
unfolding same_md5
same_content local remote =
    not local.deleted
    && not remote.deleted
    && same_md5 local.md5 remote.md5
    && eqb_ℤ local.size remote.size

-- the action for each answer of `compare`
unfoldable pub decide_by_order : VectorOrdering → FileEntry → FileEntry → Action
unfolding id_or_empty
decide_by_order equal local remote = no_op ""
decide_by_order greater local remote =
    if local.deleted then delete_remote (id_or_empty remote) else upload none
decide_by_order lesser local remote =
    if remote.deleted then delete_local else download (id_or_empty remote) none
decide_by_order _ local remote = resolve_conflict local remote

unfoldable pub decide : Option FileEntry → Option FileEntry → Action
unfolding decide_by_order decide_download_or_delete decide_upload_or_delete same_content
decide none none = no_op ""
decide none (some remote) = decide_download_or_delete remote
decide (some local) none = decide_upload_or_delete local
decide (some local) (some remote) =
    if same_content local remote
    then update_vector_only (some (merge local.version remote.version))
    else decide_by_order (compare local.version remote.version) local remote
