-- ===== src/Drive/Client/Folder/Added.antt =====
-- src/drive_client.py: what finding or creating a folder makes of the cache.
use obsidian_sync.Base.{
  ℕ, String, true, ◌≡◌, refl, sym, ap, subst, ◌∙◌, inl, inr, Option, none, some, List,
  if◌then◌else◌, Bool-cases, arith, ◌==◌, lookup-insert, truthy_text,
}
use obsidian_sync.Drive.Folders.{mime_folder}
use obsidian_sync.Drive.Resolve.{register}
use obsidian_sync.Drive.Retry.{answered, Executed, returned}
use obsidian_sync.Drive.Client.{
  Service, Session, Client, Stored, Body, Call, list_files, create_file, ◌>>=◌, ◌>>◌, pure, modify,
  list_ids, create, empty_body,
}
use obsidian_sync.Drive.Client.Returns.{and_then-returned, request_with_retry-answered}
use obsidian_sync.Drive.Client.Folder.{
  cached, folder_query, first_id, remember, find_folder, create_folder, or_create, add_folder,
}

-- what is cached stays cached
abbrev pub Keeps : Session → Session → Type 0
Keeps s t = (path id : String) → cached path s ≡ some id → cached path t ≡ some id

pub cached-caches :
    (s t : Session) → t.caches ≡ s.caches → (path : String) → cached path t ≡ cached path s
unfolding cached
cached-caches s t h path = rw h refl

cached-remember :
    (built id path : String) (s : Session)
    → truthy_text id ≡ true
    → cached path (remember built id s) ≡ (if built == path then some id else cached path s)
unfolding cached remember register
cached-remember built id path s named = elim (Bool-cases (built == path)) [
  | inl same ↦
      rw
        (cached, remember, register, lookup-insert built path id s.caches.folder_cache, same, named)
        refl
  | inr other ↦
      rw (cached, remember, register, lookup-insert built path id s.caches.folder_cache, other) refl
]

module _ (service : Service) where
  -- the ids of created folders are not empty
  abbrev pub IsNamed : Type 0
  IsNamed =
      (sent : List Call) (body : Body) (n : ℕ) (made : Stored)
      → service.on_create sent body n ≡ answered made
      → truthy_text made.id ≡ true

  find_folder-caches :
      (name parent_id : String) (s s' : Session) (found : Option String)
      → find_folder service name parent_id s ≡ (s', returned found)
      → s'.caches ≡ s.caches
  unfolding find_folder list_ids
  find_folder-caches name parent_id s s' found h =
      let query = folder_query name parent_id in
      let (t, ids, sent, rest) =
        and_then-returned (list_ids service query s) (λ ids. pure (first_id ids)) s' found h in
      let a =
        request_with_retry-answered none (list_files query) (λ sent. service.on_list sent query) s t
          ids sent in
      sym (ap (λ (r : Session × Executed (Option String)). r.0.caches) rest)
      ∙ ap (λ (x : Session). x.caches) a.0

  create_folder-named :
      (name parent_id : String) (s s' : Session) (id : String)
      → IsNamed
      → create_folder service name parent_id s ≡ (s', returned id)
      → (s'.caches ≡ s.caches) × (truthy_text id ≡ true)
  unfolding create_folder create
  create_folder-named name parent_id s s' id named h =
      let body : Body = record empty_body {
        name = some name;
        mime_type = some mime_folder;
        parent = some parent_id;
      } in
      let (t, made, sent, rest) =
        and_then-returned (create service body s) (λ made. pure made.id) s' id h in
      let a =
        request_with_retry-answered none (create_file body) (λ sent. service.on_create sent body) s
          t made sent in
      (
        sym (ap (λ (r : Session × Executed String). r.0.caches) rest)
            ∙ ap (λ (x : Session). x.caches) a.0,
        subst (λ x. truthy_text x ≡ true) (cc rest) (named s.sent body a.1 made a.2),
      )

  or_create-named :
      (part parent_id : String) (found : Option String) (s s' : Session) (id : String)
      → IsNamed
      → or_create service part parent_id found s ≡ (s', returned id)
      → (s'.caches ≡ s.caches) × (truthy_text id ≡ true)
  unfolding or_create
  or_create-named part parent_id none s s' id named h =
      create_folder-named part parent_id s s' id named h
  or_create-named part parent_id (some old) s s' id named h = elim (Bool-cases (truthy_text old)) [
    | inl full ↦
        let same : (s ≡ s') × (old ≡ id) = ground (arith, full, h) in
        (ap (λ (x : Session). x.caches) (sym same.0), subst (λ x. truthy_text x ≡ true) same.1 full)
    | inr empty ↦ create_folder-named part parent_id s s' id named (rw (or_create, empty) at h)
  ]

  -- the session after a folder has been added
  pub add_folder-caches :
      (part parent_id built : String) (s s' : Session) (id : String)
      → IsNamed
      → add_folder service part parent_id built s ≡ (s', returned id)
      → (path : String) → cached path s' ≡ (if built == path then some id else cached path s)
  unfolding add_folder
  add_folder-caches part parent_id built s s' id named h path =
      let keep : String → Client String = λ made. modify (remember built made) >> pure made in
      let (t, found, e, r) =
        and_then-returned (find_folder service part parent_id s)
          (λ found. or_create service part parent_id found >>= keep) s' id h in
      let (u, made, e', r') =
        and_then-returned (or_create service part parent_id found t) keep s' id r in
      let c = or_create-named part parent_id found t u made named e' in
      let same : made ≡ id = cc (r') in
      let after : remember built made u ≡ s' = ap (λ (x : Session × Executed String). x.0) r' in
      subst (λ (x : Session). cached path x ≡ (if built == path then some id else cached path s))
        after
        (cached-remember built made path u c.1
          ∙ ap (λ z. if built == path then some z else cached path u) same
          ∙ ap (λ z. if built == path then some id else z)
              (cached-caches t u c.0 path
                ∙ cached-caches s t (find_folder-caches part parent_id s t found e) path))
