-- ===== src/Intent/Tests.antt =====
-- The intent log at a concrete file: two intents are recorded, and the first is resolved.
use obsidian_sync.Base.{
  String, Bool, true, false, ◌≡◌, refl, some, List, [], ◌∷◌, keys, contains, insert, not, ◌==◌,
}
use obsidian_sync.Intent.{
  recorded_line, resolved_line, corrupt_line, Log, lines_of, recorded_in, resolved_in,
  get_unresolved, State, replay,
}

abbrev log : Log String
log = some (
    recorded_line "a1" "upload x"
    ∷ recorded_line "b2" "download y"
    ∷ corrupt_line
    ∷ resolved_line "a1"
    ∷ [])

unresolved_lem : get_unresolved log ≡ ("b2", "download y") ∷ []
unfolding get_unresolved insert contains
unresolved_lem = refl

new_id : contains (keys (recorded_in [] (lines_of log))) "c3" ≡ false
unfolding contains keys recorded_in insert
new_id = refl

open_id : contains (resolved_in (lines_of log)) "c3" ≡ false
unfolding contains resolved_in
open_id = refl

-- an executor that keeps a journal and refuses the download
abbrev journal : String → State String (List String) → State String (List String) × Bool
journal action s = (record s { world = action ∷ s.world }, not (action == "download y"))

-- one that refuses nothing
abbrev willing : String → State String (List String) → State String (List String) × Bool
willing action s = (record s { world = action ∷ s.world }, true)

abbrev start : State String (List String)
start = record { log = log; world = [] }

replay-journal : (replay journal start).1 ≡ 0
unfolding replay insert contains
replay-journal = refl
