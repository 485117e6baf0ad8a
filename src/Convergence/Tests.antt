-- ===== src/Convergence/Tests.antt =====
-- The convergence theorems at a shared file of two devices, of which the phone has not confirmed.
use obsidian_sync.Base.{
  ◌+◌, ◌*◌, ◌≤◌, ◌↔◌, lookup, all_of, String, Bool, true, false, ◌≡◌, refl, Option, none, some,
  List, [], ◌∷◌, contains, keys, ◌==◌, if◌then◌else◌,
}
use obsidian_sync.Convergence.{
  from_shared, ConvergenceState, SharedFile, Callbacks, to_shared, check_converged, gc_eligible,
  apply_blacklist, retry_update, report_seen,
}
use obsidian_sync.Convergence.Converged.{Lacks, gc_eligible_lem}
use obsidian_sync.Convergence.Retry.{Written, retry_update-Written}

abbrev shared : ConvergenceState
shared = record {
  schema = "v1";
  devices =
      ("laptop", record { last_seen = some 5; confirmed_tombstones = some ("t1" ∷ []) })
      ∷ ("phone", record { last_seen = none; confirmed_tombstones = none })
      ∷ [];
  blacklist = [];
}

not_yet : check_converged "t1" shared ≡ false
unfolding check_converged all_of keys contains lookup
not_yet = refl

without_phone : check_converged "t1" (apply_blacklist "phone" shared) ≡ true
unfolding check_converged all_of keys apply_blacklist contains lookup
without_phone = refl

abbrev agreed : ConvergenceState
agreed = record shared {
  devices = ("laptop", record { last_seen = some 5; confirmed_tombstones = some ("t1" ∷ []) }) ∷ [];
}

laptop_known : contains (keys agreed.devices) "laptop" ≡ true
unfolding contains keys
laptop_known = refl

agreed_converged : check_converged "t1" agreed ≡ true
unfolding check_converged all_of keys contains lookup
agreed_converged = refl

gc_eligible_lem_example :
    ((gc_eligible "t1" 100 10000000 90 (some (to_shared shared)) ≡ true)
      ↔ (100 + 90 * 86400 ≤ 10000000) × (¬ Lacks "t1" (from_shared (to_shared shared))))
    × ((gc_eligible "t1" 100 10000000 90 none ≡ true) ↔ (100 + 90 * 86400 ≤ 10000000))
gc_eligible_lem_example = gc_eligible_lem "t1" 100 10000000 90 (to_shared shared)

-- A server that keeps all versions. It has the version that an etag names, or has one written on it.
data Server : Type 0 where
  open_at : String → List SharedFile → Server
  written_on : SharedFile → String → List SharedFile → Server

abbrev content_of : String → SharedFile
content_of e = if e == "e1" then to_shared shared else to_shared agreed

-- after the first reading another device writes the version "e2"
abbrev read_server : Server → Server × Option (SharedFile × String)
read_server (open_at e rest) = (
  if e == "e1" then open_at "e2" (content_of e ∷ rest) else open_at e rest,
  some (content_of e, e),
)
read_server (written_on f e rest) = (written_on f e rest, none)

abbrev write_server : SharedFile → String → Server → Server × Bool
write_server f e (open_at current rest) =
    if e == current then (written_on f current rest, true) else (open_at current rest, false)
write_server f e (written_on g current rest) = (written_on g current rest, false)

abbrev server : Callbacks Server
server = record { read = read_server; write = write_server; jitter = λ backoff. 0 }

-- The report is written at the second attempt.
second_attempt : (report_seen server 9 "laptop" ("t2" ∷ []) (open_at "e1" [])).waits ≡ 500 ∷ []
unfolding report_seen
second_attempt = refl

blacklist_written : (retry_update server (apply_blacklist "phone") (open_at "e1" [])).success ≡ true
unfolding retry_update apply_blacklist
blacklist_written = refl

retry_update-Written_example :
    Written server
      (apply_blacklist "phone")
      (retry_update server (apply_blacklist "phone") (open_at "e1" [])).world
retry_update-Written_example =
    retry_update-Written server (apply_blacklist "phone") (open_at "e1" []) blacklist_written
