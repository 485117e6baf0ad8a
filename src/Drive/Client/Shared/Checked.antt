-- ===== src/Drive/Client/Shared/Checked.antt =====
-- src/drive_client.py: what a write of the convergence file depends on.
use obsidian_sync.Base.{
  ℕ, String, Bool, true, false, ◌≡◌, sym, ap, ◌∙◌, Option, none, some, ◌∷◌, if◌then◌else◌, ◌==◌,
}
use obsidian_sync.Convergence.{SharedFile}
use obsidian_sync.Drive.Retry.{answered, Executed, returned}
use obsidian_sync.Drive.Client.{
  Service, Session, Stored, Body, empty_body, Call, update_file, get_file, pure, update_with, get,
}
use obsidian_sync.Drive.Client.Returns.{and_then-returned, request_with_retry-answered}
use obsidian_sync.Drive.Client.Shared.{
  version_of, ensure_convergence_file, write_file, write_checked, write_convergence,
}

module _ (service : Service) (load_json : String → Option SharedFile)
    (dump_json : SharedFile → String) where
  -- the request that overwrites the file
  abbrev pub overwrite : SharedFile → String → Call
  overwrite file id = update_file id (record empty_body { media = some (dump_json file) })

  write_file-sent :
      (file : SharedFile) (id : String) (s s' : Session) (written : Bool)
      → write_file service load_json dump_json file id s ≡ (s', returned written)
      → (written ≡ true) × (s'.sent ≡ overwrite file id ∷ s.sent)
  unfolding write_file update_with
  write_file-sent file id s s' written h =
      let body : Body = record empty_body { media = some (dump_json file) } in
      let (t, stored, e, r) =
        and_then-returned (update_with service (some id) id body s) (λ _. pure true) s' written h in
      let a =
        request_with_retry-answered (some id) (update_file id body)
          (λ sent. service.on_update sent id body) s t stored e in
      (
        sym (cc r),
        sym (ap (λ (x : Session × Executed Bool). x.0.sent) r) ∙ ap (λ (x : Session). x.sent) a.0,
      )

  -- the end of a checked write, by the answer of the check
  decided :
      (same : Bool) (file : SharedFile) (id : String) (s s' : Session) (written : Bool)
      → (if same then write_file service load_json dump_json file id else pure false) s
        ≡ (s', returned written)
      → (written ≡ same) × (s'.sent ≡ (if same then overwrite file id ∷ s.sent else s.sent))
  decided true file id s s' written h = write_file-sent file id s s' written h
  decided false file id s s' written h =
      (sym (cc h), sym (ap (λ (x : Session × Executed Bool). x.0.sent) h))

  -- the session and the file id that a write starts with
  abbrev pub StartsAt : Session → Session → String → Type 0
  StartsAt s t id = ensure_convergence_file service load_json dump_json s ≡ (t, returned id)

  -- A write for an expected version other than "0" that returns has, after the file was found or
  -- created, read the file's version. It answers whether that was the one expected, and it overwrites
  -- the file, as its one other request, exactly when it answers yes.
  pub write_convergence-checked :
      (file : SharedFile) (expected_version : String) (s s' : Session) (written : Bool)
      → expected_version == "0" ≡ false
      → write_convergence service load_json dump_json file expected_version s
        ≡ (s', returned written)
      → (t : Session) × (id : String) × (current : Stored) × (n : ℕ) × StartsAt s t id
        × (service.on_get t.sent id n ≡ answered current)
        × (written ≡ version_of current == expected_version)
        × (s'.sent
            ≡ (if written then overwrite file id ∷ get_file id ∷ t.sent else get_file id ∷ t.sent))
  unfolding write_convergence write_checked get
  write_convergence-checked file expected s s' written other h =
      let (t, id, e, r) =
        and_then-returned (ensure_convergence_file service load_json dump_json s)
          (λ id.
            if expected == "0"
            then write_file service load_json dump_json file id
            else write_checked service load_json dump_json file expected id)
          s' written h in
      let checked : write_checked service load_json dump_json file expected id t
          ≡ (s', returned written) =
        rw other at r in
      let (u, current, e', r') =
        and_then-returned (get service none id t)
          (λ current.
            if version_of current == expected
            then write_file service load_json dump_json file id
            else pure false)
          s' written checked in
      let a =
        request_with_retry-answered none (get_file id) (λ sent. service.on_get sent id) t u current
          e' in
      let (answer, sent) = decided (version_of current == expected) file id u s' written r' in
      (
        t,
        id,
        current,
        a.1,
        e,
        a.2,
        answer,
        sent
            ∙ ap (λ b. if b then overwrite file id ∷ u.sent else u.sent) (sym answer)
            ∙ ap (λ (x : Session). if written then overwrite file id ∷ x.sent else x.sent) a.0,
      )

  -- A write for the expected version "0", which `read_convergence` gives for a file that is not there,
  -- overwrites the file that it finds then without reading its version.
  pub write_convergence-unchecked :
      (file : SharedFile) (s s' : Session) (written : Bool)
      → write_convergence service load_json dump_json file "0" s ≡ (s', returned written)
      → (t : Session) × (id : String) × StartsAt s t id
        × (written ≡ true)
        × (s'.sent ≡ overwrite file id ∷ t.sent)
  unfolding write_convergence
  write_convergence-unchecked file s s' written h =
      let (t, id, e, r) =
        and_then-returned (ensure_convergence_file service load_json dump_json s)
          (λ id. write_file service load_json dump_json file id) s' written h in
      let w = write_file-sent file id t s' written r in (t, id, e, w.0, w.1)
