-- ===== src/Convergence.antt =====
-- src/convergence.py: which devices have seen a tombstone. Times are in seconds, waits in milliseconds.
use obsidian_sync.Base.{
  ℕ, zero, suc, ◌+◌, ◌*◌, String, Bool, true, false, not, ◌||◌, Option, none, some, List, [], ◌∷◌,
  ◌++◌, Dict, lookup, insert, keys, contains, union, all_of, ltb, if◌then◌else◌, sort_texts,
  some_or,
}
pub mod Converged
pub mod Retry
mod Tests

abbrev pub initial_backoff : ℕ
initial_backoff = 500

abbrev pub backoff_multiplier : ℕ
backoff_multiplier = 2

abbrev pub max_backoff : ℕ
max_backoff = 8000

abbrev pub max_retries : ℕ
max_retries = 6

-- a device's dict in the shared file
pub record DeviceData : Type 0 where
  pub last_seen : Option ℕ
  pub confirmed_tombstones : Option (List String)

pub record ConvergenceState : Type 0 where
  pub schema : String
  pub devices : Dict DeviceData
  pub blacklist : List String

-- the JSON object of the shared file, whose keys may be missing
pub record SharedFile : Type 0 where
  pub schema : Option String
  pub devices : Option (Dict DeviceData)
  pub blacklist : Option (List String)

unfoldable pub to_shared : ConvergenceState → SharedFile
to_shared s = record {
  schema = some s.schema;
  devices = some s.devices;
  blacklist = some s.blacklist;
}

unfoldable pub from_shared : SharedFile → ConvergenceState
from_shared file = record {
  schema = some_or file.schema "v1";
  devices = some_or file.devices [];
  blacklist = some_or file.blacklist [];
}

-- `ConvergenceState()`
unfoldable pub no_devices : ConvergenceState
no_devices = record { schema = "v1"; devices = []; blacklist = [] }

-- `dev.get("confirmed_tombstones", [])`
unfoldable pub confirmed_of : Option DeviceData → List String
confirmed_of none = []
confirmed_of (some d) = some_or d.confirmed_tombstones []

-- whether a device is blacklisted or has confirmed the tombstone
unfoldable pub has_confirmed : String → ConvergenceState → String → Bool
unfolding confirmed_of
has_confirmed tombstone_id s dev_id =
    contains s.blacklist dev_id || contains (confirmed_of (lookup dev_id s.devices)) tombstone_id

unfoldable pub check_converged : String → ConvergenceState → Bool
unfolding has_confirmed
check_converged tombstone_id s = all_of (has_confirmed tombstone_id s) (keys s.devices)

-- `read` is what reading the shared file gives, `none` for an exception.
unfoldable pub read_state : Option SharedFile → ConvergenceState
unfolding from_shared no_devices
read_state none = no_devices
read_state (some file) = from_shared file

unfoldable pub gc_eligible : String → ℕ → ℕ → ℕ → Option SharedFile → Bool
unfolding check_converged read_state
gc_eligible tombstone_id deleted_at now retention_days read =
    if ltb now (deleted_at + retention_days * 86400)
    then false
    else check_converged tombstone_id (read_state read)

unfoldable pub apply_report_seen : ℕ → String → List String → ConvergenceState → ConvergenceState
unfolding confirmed_of
apply_report_seen now device_id tombstone_ids s =
    let existing = confirmed_of (lookup device_id s.devices) in
    let dev : DeviceData = record {
      last_seen = some now;
      confirmed_tombstones = some (sort_texts (union existing tombstone_ids));
    } in
    record s { devices = insert device_id dev s.devices }

unfoldable pub apply_blacklist : String → ConvergenceState → ConvergenceState
apply_blacklist device_id s =
    if contains s.blacklist device_id
    then s
    else record s { blacklist = s.blacklist ++ (device_id ∷ []) }

-- The callbacks that reach the shared file, with what they do to the world, which other devices may
-- change at each of them. `read` gives `none`, and `write` gives `false`, also for an exception. A
-- callback that is not set reads the empty object, or writes nothing and succeeds. `jitter` is the
-- random extra wait after a write that did not succeed.
pub record Callbacks (W : Type 0) : Type 0 where
  pub read : W → W × Option (SharedFile × String)
  pub write : SharedFile → String → W → W × Bool
  pub jitter : ℕ → ℕ

-- the world, whether the update was written, and the waits
pub record Outcome (W : Type 0) : Type 0 where
  pub world : W
  pub success : Bool
  pub waits : List ℕ

unfoldable pub next_backoff : ℕ → ℕ
next_backoff backoff =
    if ltb max_backoff (backoff * backoff_multiplier)
    then max_backoff
    else backoff * backoff_multiplier

module _ {W : Type 0} (c : Callbacks W) (apply_fn : ConvergenceState → ConvergenceState) where
  -- `_sleep`, then the other attempts
  waited : ℕ → Outcome W → Outcome W
  waited seconds rest = record rest { waits = seconds ∷ rest.waits }

  -- the loop with this number of retries left after the attempt
  unfoldable pub attempts : ℕ → ℕ → W → Outcome W
  unfolding to_shared from_shared next_backoff waited
  attempts zero backoff w =
      let (w', answer) = c.read w in
      elim answer [
        | none ↦ record { world = w'; success = false; waits = [] }
        | some a ↦
            let (w'', success) = c.write (to_shared (apply_fn (from_shared a.0))) a.1 w' in
            record { world = w''; success = success; waits = [] }
      ]
  attempts (suc n) backoff w =
      let (w', answer) = c.read w in
      elim answer [
        | none ↦ waited backoff (attempts n (next_backoff backoff) w')
        | some a ↦
            let (w'', success) = c.write (to_shared (apply_fn (from_shared a.0))) a.1 w' in
            let rest = attempts n (next_backoff backoff) w'' in
            if success
            then record { world = w''; success = true; waits = [] }
            else waited (backoff + c.jitter backoff) rest
      ]

  unfoldable pub retry_update : W → Outcome W
  unfolding attempts
  retry_update w = attempts max_retries initial_backoff w

unfoldable pub report_seen : {W : Type 0} → Callbacks W → ℕ → String → List String → W → Outcome W
unfolding retry_update apply_report_seen
report_seen c now device_id tombstone_ids w =
    retry_update c (apply_report_seen now device_id tombstone_ids) w

unfoldable pub blacklist_device : {W : Type 0} → Callbacks W → String → W → Outcome W
unfolding retry_update apply_blacklist
blacklist_device c device_id w = retry_update c (apply_blacklist device_id) w
