-- ===== src/Engine/Published.antt =====
-- What an upload writes to the Drive, and what it records of it.
use text.Mathlib.TextPositions.{eq_refl}
use obsidian_sync.Base.{
  String, false, ◌≡◌, ◌⊎◌, refl, inl, inr, Option, some, ◌∷◌, List, Dict, lookup, lookup-insert,
  Distinct, insert-Distinct,
}
use obsidian_sync.Vector.{update, trim}
use obsidian_sync.Codec.{encode, decode, max_device_keys}
use obsidian_sync.Codec.RoundTrip.{decode-encode}
use obsidian_sync.Drive.{DriveCall, upload_file}
use obsidian_sync.Vault.{LocalFile}
use obsidian_sync.State.{FileEntry, new_entry, update_file}
use obsidian_sync.Engine.{Engine, done}
use obsidian_sync.Engine.Site.{
  Site, Reply, answer, raises, Failure, token_lost, missing, other_failure, ending_of,
  version_or_empty, next_version, record_entry, called, mark_drive_written,
}
use obsidian_sync.Engine.Upload.{
  drive_id_of, is_upload_echo, upload_target, uploaded_entry, do_upload, send,
}

-- The last call of the client uploads the content of the file with properties that decode to the
-- vector of its entry, trimmed to the number of devices that the Drive takes, and the entry is not
-- that of a deleted file.
pub record Published (path : String) (f : LocalFile) (md5 : Option String) (e : Engine)
    : Type 0 where
  pub entry : FileEntry
  pub id : Option String
  pub props : Dict String
  pub earlier : List DriveCall
  pub recorded : lookup path e.state.files ≡ some entry
  pub sent : e.calls ≡ upload_file f.content path id props ∷ earlier
  pub same_version : decode (some props) ≡ (trim max_device_keys entry.version, false, md5)
  pub present : entry.deleted ≡ false
  pub same_size : entry.size ≡ f.size

Reply-cases :
    {A : Type 0} (r : Reply A)
    → ((failure : Failure) × (r ≡ raises failure)) ⊎ ((a : A) × (r ≡ answer a))
Reply-cases (raises failure) = inl (failure, refl)
Reply-cases (answer a) = inr (a, refl)

ending_of-done : (failure : Failure) → ¬ (ending_of failure ≡ done)
ending_of-done token_lost h = cc h
ending_of-done (missing id) h = cc h
ending_of-done other_failure h = cc h

pub recorded_entry :
    (path : String) (entry : FileEntry) (e : Engine)
    → lookup path (record_entry path entry e).state.files ≡ some entry
unfolding record_entry update_file
recorded_entry path entry e = rw (lookup-insert, eq_refl path) refl

module _ (site : Site) where
  next_version-Distinct :
      (existing : Option FileEntry) (e : Engine)
      → Distinct (version_or_empty existing).counters
      → Distinct (next_version site existing e).counters
  unfolding next_version update
  next_version-Distinct existing e u = insert-Distinct _ _ _ u

  send-Published :
      (path : String) (f : LocalFile) (existing : Option FileEntry) (id : Option String)
      (e : Engine)
      → Distinct (version_or_empty existing).counters
      → (send site path f existing id e).1 ≡ done
      → Published path f (site.compute_md5 f) (send site path f existing id e).0
  unfolding send called uploaded_entry record_entry mark_drive_written new_entry
  send-Published path f existing id e u =
      let version = next_version site existing e in
      let props = encode version false (site.compute_md5 f) in
      elim (Reply-cases (site.upload e.calls f path id props)) [
        | inl (failure, h) ↦ rw (h, send) (λ ended. absurd (ending_of-done failure ended))
        | inr (r, h) ↦
            rw (h, send)
              (λ ended. record {
                entry = uploaded_entry site f existing r e;
                id = id;
                props = props;
                earlier = e.calls;
                recorded =
                    recorded_entry path (uploaded_entry site f existing r e)
                      (called (upload_file f.content path id props) e);
                sent = refl;
                same_version =
                    decode-encode version false (site.compute_md5 f)
                      (next_version-Distinct existing e u);
                present = refl;
                same_size = refl;
              })
      ]

  -- If a file is in the vault, the state does not have its content yet, and the upload ends normally,
  -- then the Drive was given the content under the vector that the state records for the path, trimmed
  -- to 28 devices if it has more.
  pub do_upload-Published :
      (path : String) (f : LocalFile) (e : Engine)
      → lookup path e.vault ≡ some f
      → is_upload_echo (lookup path e.state.files) f (site.compute_md5 f) ≡ false
      → Distinct (version_or_empty (lookup path e.state.files)).counters
      → (do_upload site path e).1 ≡ done
      → Published path f (site.compute_md5 f) (do_upload site path e).0
  unfolding do_upload
  do_upload-Published path f e there fresh u =
      let existing = lookup path e.state.files in
      let target = upload_target site path (drive_id_of existing) e in
      rw (do_upload, there, fresh) (send-Published path f existing target.1 target.0 u)
