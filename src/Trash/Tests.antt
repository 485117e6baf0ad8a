-- ===== src/Trash/Tests.antt =====
-- A trash with an expired and a fresh item.
use obsidian_sync.Base.{
  Bool, true, false, ◌↔◌, refl, lookup, contains, keys, pos, ◌≡◌, none, some, [], ◌∷◌,
}
use obsidian_sync.Vault.{LocalFile, Vault}
use obsidian_sync.Trash.{Trash, TrashMeta, UnlinkFaults, gc}
use obsidian_sync.Trash.Retention.{Expired, Left, item, goes, gc-Collects}

abbrev note : LocalFile
note = record { mtime = 7; size = pos 3; content = "abc" }

abbrev old_meta : TrashMeta
old_meta = record {
  original_path = some "b.md";
  mtime = some 7;
  size = some (pos 3);
  deleted_at = some 10;
  md5 = none;
}

abbrev vault : Vault
vault = ("a.md", note) ∷ []

abbrev trash : Trash
trash = record {
  bodies = ("t1", note) ∷ ("t2", note) ∷ [];
  metas =
      ("t1", some old_meta)
      ∷ ("t2", some (record old_meta { deleted_at = some 90000 }))
      ∷ ("t3", none)
      ∷ [];
}

-- the metadata of the expired item cannot be removed
abbrev locked_meta : UnlinkFaults
locked_meta = record { body_stays = λ id. false; meta_stays = λ id. true }

gc-Collects_example :
    (expired : Bool) × ((expired ≡ true) ↔ Expired 100000 1 (lookup "t1" trash.metas))
    × Left locked_meta "t1"
        (item "t1" trash)
        (item "t1" (gc locked_meta 100000 1 trash).0)
        (goes locked_meta "t1" (lookup "t1" trash.bodies) expired)
unfolding contains keys
gc-Collects_example = gc-Collects locked_meta 100000 1 trash "t1" (refl, (refl, (refl, tt)))
