-- ===== src/State/Scan.antt =====
-- src/state.py: `scan_local_files`, on a tree that is what the file system answers.
use Prim.Native.String.{◌++◌ as ◌+text◌}
use obsidian_sync.Base.{
  ℕ, String, Bool, false, ◌≡◌, sym, ap, ◌∙◌, Option, none, some, [], ℤ, Dict, lookup, insert,
  lookup-insert, if◌then◌else◌, if_intro, some_or, subst, ◌==◌, Bool-cases, inl, inr, eq_iff,
}
use obsidian_sync.State.{FileEntry, new_entry}

mutual
  -- One entry of a directory. `none` is an `OSError` of `stat`, or a `PermissionError` of `scandir`;
  -- `other` is neither a file nor a directory, as a symbolic link.
  pub data DirEntry : Type 0 where
    file : String → Option (ℕ × ℤ) → DirEntry
    dir : String → Listing → DirEntry
    other : String → DirEntry

  pub data Listing : Type 0 where
    denied : Listing
    end : Listing
    entry : DirEntry → Listing → Listing

-- `relative_to(vault_root).as_posix()`; the root's own prefix is the empty text
unfoldable pub rel_path : String → String → String
rel_path prefix name = if prefix == "" then name else prefix +text "/" +text name

-- what the scan keeps of the old entry
unfoldable pub scanned_entry : ℕ × ℤ → Option FileEntry → FileEntry
unfolding new_entry
scanned_entry stat none = new_entry stat.0 stat.1
scanned_entry stat (some existing) = record (new_entry stat.0 stat.1) {
  drive_id = existing.drive_id;
  version = existing.version;
}

module _ (should_ignore : String → Bool) (files : Dict FileEntry) where
  unfoldable mutual
    unfolding rel_path scanned_entry

    pub scan_entry : String → DirEntry → Dict FileEntry → Dict FileEntry
    scan_entry prefix (file name none) result = result
    scan_entry prefix (file name (some stat)) result =
        let path = rel_path prefix name in
        if should_ignore path
        then result
        else insert path (scanned_entry stat (lookup path files)) result
    scan_entry prefix (dir name listing) result =
        let path = rel_path prefix name in
        let below = scan_dir path listing result in if should_ignore path then result else below
    scan_entry prefix (other name) result = result

    pub scan_dir : String → Listing → Dict FileEntry → Dict FileEntry
    scan_dir prefix denied result = result
    scan_dir prefix end result = result
    scan_dir prefix (entry e listing) result = scan_dir prefix listing (scan_entry prefix e result)

  -- An entry of the scan stands at a path that is not ignored, and is the old entry's with the file's
  -- time and size, without deletion mark and hash.
  abbrev pub Scanned : String → FileEntry → Type 0
  Scanned path e =
      (should_ignore path ≡ false) × ((stat : ℕ × ℤ) × (e ≡ scanned_entry stat (lookup path files)))

  abbrev AllScanned : Dict FileEntry → Type 0
  AllScanned result = (path : String) (e : FileEntry) → lookup path result ≡ some e → Scanned path e

  insert-AllScanned :
      (path : String) (stat : ℕ × ℤ) (result : Dict FileEntry)
      → should_ignore path ≡ false
      → AllScanned result
      → AllScanned (insert path (scanned_entry stat (lookup path files)) result)
  insert-AllScanned path stat result kept h p e found = elim (Bool-cases (path == p)) [
    | inl same ↦
        let held = lookup-insert path p (scanned_entry stat (lookup path files)) result in
        let inserted : (if path == p
              then some (scanned_entry stat (lookup path files))
              else lookup p result)
            ≡ some (scanned_entry stat (lookup path files)) =
          rw same in
        let new_entry_found : e ≡ scanned_entry stat (lookup path files) =
          ap (λ o. some_or o e) (sym found ∙ held ∙ inserted) in
        subst (λ q. Scanned q e) ((eq_iff path p).0 same) (kept, (stat, new_entry_found))
    | inr elsewhere ↦
        let skipped : (if path == p
              then some (scanned_entry stat (lookup path files))
              else lookup p result)
            ≡ lookup p result =
          rw elsewhere in
        h p e (
          sym (lookup-insert path p (scanned_entry stat (lookup path files)) result ∙ skipped)
          ∙ found)
  ]

  mutual
    unfolding scan_entry scan_dir

    scan_entry-AllScanned :
        (prefix : String) (e : DirEntry) (result : Dict FileEntry)
        → AllScanned result
        → AllScanned (scan_entry prefix e result)
    scan_entry-AllScanned prefix (file name none) result h = h
    scan_entry-AllScanned prefix (file name (some stat)) result h =
        let path = rel_path prefix name in
        if_intro AllScanned (should_ignore path) _ _ (λ _. h)
          (λ kept. insert-AllScanned path stat result kept h)
    scan_entry-AllScanned prefix (dir name listing) result h =
        let path = rel_path prefix name in
        if_intro AllScanned (should_ignore path) _ _ (λ _. h)
          (λ _. scan_dir-AllScanned path listing result h)
    scan_entry-AllScanned prefix (other name) result h = h

    scan_dir-AllScanned :
        (prefix : String) (listing : Listing) (result : Dict FileEntry)
        → AllScanned result
        → AllScanned (scan_dir prefix listing result)
    scan_dir-AllScanned prefix denied result h = h
    scan_dir-AllScanned prefix end result h = h
    scan_dir-AllScanned prefix (entry e listing) result h =
        scan_dir-AllScanned prefix listing (scan_entry prefix e result)
          (scan_entry-AllScanned prefix e result h)

  unfoldable pub scan_local_files : Listing → Dict FileEntry
  unfolding scan_dir
  scan_local_files root = scan_dir "" root []

  -- Whatever the vault holds, every entry of a scan is of a path that is not ignored, and it takes its
  -- drive id and its vector from the state's entry at the path, if there is one.
  pub scan_local_files-Scanned :
      (root : Listing) (path : String) (e : FileEntry)
      → lookup path (scan_local_files root) ≡ some e
      → Scanned path e
  unfolding scan_local_files lookup
  scan_local_files-Scanned root path e found =
      scan_dir-AllScanned "" root [] (λ p x h. cc h) path e found
