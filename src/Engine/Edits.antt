-- ===== src/Engine/Edits.antt =====
-- A local edit survives a download.
use obsidian_sync.Base.{
  ℕ, ◌≤◌, String, true, false, ◌≡◌, ◌≢◌, refl, ap, ◌∙◌, inl, inr, Option, none, some, lookup,
  insert, lookup-insert, contains, keys, ◌==◌, eq_iff, Bool-cases, refuted, arith,
}
use obsidian_sync.Drive.{get_file_metadata}
use obsidian_sync.Vault.{LocalFile, Vault}
use obsidian_sync.Conflict.{candidate, resolve_files}
use obsidian_sync.Conflict.Copies.{Copies, resolve_files-Copies}
use obsidian_sync.Reconcile.{same_md5}
use obsidian_sync.Reconcile.Incremental.{has_id}
use obsidian_sync.Engine.{Engine}
use obsidian_sync.Engine.Convert.{state_md5}
use obsidian_sync.Engine.Site.{Site, mark_local_written, record_entry, called}
use obsidian_sync.Engine.Download.{
  Guard, skip_equal, protect_edit, refresh_state, copy_first, proceed, download_guard, do_download,
  fetch, guarded, copy_and_fetch, refresh_entry,
}

-- The file stands in the vault, at its path or another one, and the files at all other paths are as
-- they were.
pub record Survives (path : String) (f : LocalFile) (before after : Vault) : Type 0 where
  pub place : String
  pub stands : lookup place after ≡ some f
  pub others :
      (p : String) (g : LocalFile)
      → (path == p) ≡ false
      → lookup p before ≡ some g
      → lookup p after ≡ some g

unchanged :
    (path : String) (f : LocalFile) (before after : Vault)
    → lookup path before ≡ some f
    → after ≡ before
    → Survives path f before after
unchanged path f before after there h = record {
  place = path;
  stands = rw h there;
  others = λ p g apart found. rw h found;
}

elsewhere :
    (path p : String) (f : LocalFile) (vault : Vault)
    → (path == p) ≡ false
    → lookup p (insert path f vault) ≡ lookup p vault
elsewhere path p f vault apart = rw (lookup-insert, apart) refl

module _ (site : Site) where
  fetch-elsewhere :
      (id : Option String) (path p : String) (e : Engine)
      → (path == p) ≡ false
      → lookup p (fetch site id path e).0.vault ≡ lookup p e.vault
  unfolding fetch called record_entry mark_local_written
  fetch-elsewhere id path p e apart = grind (arith, elsewhere)

  refresh_entry-vault :
      (id : Option String) (path : String) (f : LocalFile) (md5 : Option String) (e : Engine)
      → (refresh_entry id path f md5 e).vault ≡ e.vault
  unfolding refresh_entry record_entry
  refresh_entry-vault id path f md5 e = ground arith

  apart_of :
      (path copy : String) (f : LocalFile) (vault : Vault)
      → lookup path vault ≡ some f
      → lookup copy vault ≡ none
      → (path == copy) ≡ false
  apart_of path copy f vault there absent =
      refuted (path == copy) (λ h. cc ((eq_iff path copy).0 h, there, absent))

  after_copy :
      (id : Option String) (path : String) (f : LocalFile) (before after : Vault) (e : Engine)
      → lookup path before ≡ some f
      → Copies f before after
      → e.vault ≡ after
      → Survives path f before (fetch site id path e).0.vault
  after_copy id path f before after e there c h = record {
    place = c.copy;
    stands =
        fetch-elsewhere id path c.copy e (apart_of path c.copy f before there c.copy_new)
        ∙ ap (lookup c.copy) h
        ∙ c.copied;
    others =
        λ p g apart found. fetch-elsewhere id path p e apart ∙ ap (lookup p) h ∙ c.kept p g found;
  }

  copy_fails-kept :
      (path : String) (f : LocalFile) (e : Engine)
      → lookup path e.vault ≡ some f
      → resolve_files (site.naming e) true path e.vault ≡ (e.vault, none)
  unfolding resolve_files
  copy_fails-kept path f e there = rw (there, resolve_files) refl

  copy_and_fetch-Survives :
      (id : Option String) (path : String) (f : LocalFile) (e : Engine) (j : ℕ)
      → lookup path e.vault ≡ some f
      → contains (keys e.vault) (candidate (site.naming e) path ((site.naming e).stamp j)) ≡ false
      → j ≤ 60
      → Survives path f e.vault (copy_and_fetch site id path e).0.vault
  unfolding copy_and_fetch
  copy_and_fetch-Survives id path f e j there free h = elim (Bool-cases (site.copy_fails path)) [
    | inl fails ↦
        let kept = copy_fails-kept path f e there in
        rw (copy_and_fetch, fails, kept, fails, kept) (unchanged path f e.vault e.vault there refl)
    | inr copied ↦
        let c = resolve_files-Copies (site.naming e) path e.vault f j there free h in
        rw (copy_and_fetch, copied, c.1, copied) (after_copy id path f e.vault _ _ there c.0 refl)
  ]

  guarded-Survives :
      (g : Guard) (id : Option String) (path : String) (f : LocalFile) (e : Engine) (j : ℕ)
      → g ≢ proceed
      → lookup path e.vault ≡ some f
      → contains (keys e.vault) (candidate (site.naming e) path ((site.naming e).stamp j)) ≡ false
      → j ≤ 60
      → Survives path f e.vault (guarded site g id path f e).0.vault
  unfolding guarded
  guarded-Survives skip_equal id path f e j n there free h = unchanged path f _ _ there refl
  guarded-Survives protect_edit id path f e j n there free h = unchanged path f _ _ there refl
  guarded-Survives refresh_state id path f e j n there free h =
      unchanged path f _ _ there (refresh_entry-vault id path f (site.compute_md5 f) e)
  guarded-Survives copy_first id path f e j n there free h =
      copy_and_fetch-Survives id path f e j there free h
  guarded-Survives proceed id path f e j n there free h = absurd (n refl)

  -- with both hashes known and the local one not that of the state, a download is never plain
  download_guard-edited :
      (local stored remote : Option String)
      → has_id local ≡ true
      → has_id remote ≡ true
      → same_md5 stored local ≡ false
      → download_guard local stored remote ≢ proceed
  unfolding download_guard
  download_guard-edited local stored remote known asked edited =
      rw (known, asked, edited) (λ h. ground arith)

  -- If a file differs from what the state has recorded, and its hash and the one on the Drive can be
  -- read, then after a download its content stands at its path or at another one, and no file at
  -- another path has changed; one of the 61 names of a conflict copy has to be free.
  pub do_download-Survives :
      (id : Option String) (path : String) (f : LocalFile) (e : Engine) (j : ℕ)
      → lookup path e.vault ≡ some f
      → has_id (site.compute_md5 f) ≡ true
      → has_id (site.get_md5 e.calls id) ≡ true
      → same_md5 (state_md5 path e.state) (site.compute_md5 f) ≡ false
      → let n = site.naming (called (get_file_metadata id) e) in
        contains (keys e.vault) (candidate n path (n.stamp j)) ≡ false
        → j ≤ 60
        → Survives path f e.vault (do_download site id path e).0.vault
  unfolding do_download called
  do_download-Survives id path f e j there known asked edited free h =
      rw (do_download, there)
        (guarded-Survives _ id path f (called (get_file_metadata id) e) j
          (download_guard-edited (site.compute_md5 f) (state_md5 path e.state)
            (site.get_md5 e.calls id) known asked edited)
          there free h)
