-- ===== src/Engine/ConflictTests.antt =====
-- A conflict in which each device names its own version the winner.
use obsidian_sync.Base.{
  pos, some, [], ◌∷◌, ◌≡◌, false, refl, keys, lookup, values, all_of, union, ◌+ℤ◌,
}
use obsidian_sync.Vector.{sum, compare, all_keys, ordering_of, covers, counter}
use obsidian_sync.Vector.Order.{IsConcurrent}
use obsidian_sync.State.{FileEntry, new_entry}
use obsidian_sync.Reconcile.{same_content, decide}
use obsidian_sync.Reconcile.Actions.{Winner, Reason, action_to_dict}
use obsidian_sync.Engine.Perform.{perform}
use obsidian_sync.Engine.Conflicts.{uploads, conflict_of, conflict_uploads_nothing}
use obsidian_sync.Engine.SiteTests.{last_part, site, stocked}

abbrev laptop_file : FileEntry
laptop_file = record (new_entry 120 (pos 12)) {
  drive_id = some "d1";
  version = record { counters = ("laptop00", pos 5) ∷ ("phone000", pos 3) ∷ [] };
  md5 = some "bb";
}

abbrev phone_file : FileEntry
phone_file = record (new_entry 130 (pos 13)) {
  drive_id = some "d1";
  version = record { counters = ("laptop00", pos 3) ∷ ("phone000", pos 5) ∷ [] };
  md5 = some "cc";
}

in_conflict : IsConcurrent (compare laptop_file.version phone_file.version)
unfolding compare all_keys union keys ordering_of covers all_of counter lookup sum values ◌+ℤ◌
in_conflict = tt

contents_differ : same_content laptop_file phone_file ≡ false
unfolding same_content new_entry
contents_differ = refl

conflict_uploads_nothing_example :
    (winner : Winner) × (reason : Reason) × ((action_to_dict
        (decide (some laptop_file) (some phone_file))
        "a.md"
        (some laptop_file)
        (some phone_file)
        stocked.state).0
      ≡ some (conflict_of "a.md" laptop_file phone_file winner reason))
    × (uploads
          (perform last_part site
            (conflict_of "a.md" laptop_file phone_file winner reason)
            stocked).0.calls
        ≡ uploads stocked.calls)
conflict_uploads_nothing_example =
    conflict_uploads_nothing last_part site "a.md" laptop_file phone_file stocked.state stocked
      in_conflict contents_differ
