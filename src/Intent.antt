-- ===== src/Intent.antt =====
-- src/intent_log.py: the write-ahead log of actions. A line of the file is read as what
-- `_get_unresolved` makes of it; blank lines are left out.
pub mod Unresolved
pub mod Compact
pub mod Replay
mod Tests
use obsidian_sync.Base.{
  ℕ, ◌-◌, ◌+◌, String, Bool, true, false, Option, none, some, List, [], ◌∷◌, ◌++◌, Dict, insert,
  contains, length, if◌then◌else◌,
}

pub data Line {ℓ} (A : Type ℓ) : Type ℓ where
  recorded_line : String → A → Line A
  resolved_line : String → Line A
  -- JSON that has neither an action nor a true `resolved`
  other_line : Line A
  corrupt_line : Line A

-- the file; `none` if it does not exist
abbrev pub Log {ℓ} : Type ℓ → Type ℓ
Log A = Option (List (Line A))

module _ {ℓ} {A : Type ℓ} where
  -- the lines, and none if there is no file
  abbrev pub lines_of : Log A → List (Line A)
  lines_of none = []
  lines_of (some lines) = lines

  -- `_append`, which creates the file
  unfoldable pub append_line : Line A → Log A → Log A
  append_line line log = some (lines_of log ++ (line ∷ []))

  -- `record`; the id is the fresh UUID
  unfoldable pub record_intent : String → A → Log A → Log A
  unfolding append_line
  record_intent id action log = append_line (recorded_line id action) log

  unfoldable pub resolve : String → Log A → Log A
  unfolding append_line
  resolve id log = append_line (resolved_line id) log

  -- the dict `recorded` after the loop over the lines
  unfoldable pub recorded_in : Dict A → List (Line A) → Dict A
  recorded_in acc [] = acc
  recorded_in acc (recorded_line id action ∷ rest) = recorded_in (insert id action acc) rest
  recorded_in acc (resolved_line id ∷ rest) = recorded_in acc rest
  recorded_in acc (other_line ∷ rest) = recorded_in acc rest
  recorded_in acc (corrupt_line ∷ rest) = recorded_in acc rest

  -- the set `resolved` after the loop
  unfoldable pub resolved_in : List (Line A) → List String
  resolved_in [] = []
  resolved_in (resolved_line id ∷ rest) = id ∷ resolved_in rest
  resolved_in (recorded_line id action ∷ rest) = resolved_in rest
  resolved_in (other_line ∷ rest) = resolved_in rest
  resolved_in (corrupt_line ∷ rest) = resolved_in rest

  -- `{k: v for k, v in recorded.items() if k not in resolved}`
  unfoldable pub without_keys : List String → Dict A → Dict A
  without_keys ids [] = []
  without_keys ids ((k, v) ∷ d) =
      let rest = without_keys ids d in if contains ids k then rest else (k, v) ∷ rest

  unfoldable pub get_unresolved : Log A → Dict A
  unfolding recorded_in resolved_in without_keys
  get_unresolved log =
      let lines = lines_of log in without_keys (resolved_in lines) (recorded_in [] lines)

  unfoldable pub count_lines : Log A → ℕ
  count_lines log = length (lines_of log)

  -- one record line for each unresolved intent
  unfoldable pub record_lines : Dict A → List (Line A)
  record_lines [] = []
  record_lines ((id, action) ∷ d) = recorded_line id action ∷ record_lines d

  -- the new file of `compact`; a file that is not there stays so
  unfoldable pub compacted : Dict A → Log A → Log A
  unfolding record_lines
  compacted [] none = none
  compacted [] (some lines) = some []
  compacted (e ∷ d) log = some (record_lines (e ∷ d))

  -- the new file and the number of lines removed
  unfoldable pub compact : Log A → Log A × ℕ
  unfolding get_unresolved count_lines compacted
  compact log =
      let unresolved = get_unresolved log in
      (compacted unresolved log, count_lines log - length unresolved)

-- What `replay` works on: the log, and whatever the executor changes.
pub record State {ℓ} (A W : Type ℓ) : Type ℓ where
  pub log : Log A
  pub world : W

module _ {ℓ} {A W : Type ℓ} (execute : A → State A W → State A W × Bool) where
  -- The loop over the intents. The executor's `false` stands for an exception: the intent stays.
  unfoldable pub replay_all : Dict A → State A W → State A W × ℕ
  unfolding resolve
  replay_all [] s = (s, 0)
  replay_all ((id, action) ∷ d) s =
      let (s', done) = execute action s in
      let next = if done then record s' { log = resolve id s'.log } else s' in
      let (last, replayed) = replay_all d next in (last, if done then replayed + 1 else replayed)

  unfoldable pub replay : State A W → State A W × ℕ
  unfolding replay_all get_unresolved
  replay s = replay_all (get_unresolved s.log) s
