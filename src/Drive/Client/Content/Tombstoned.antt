-- ===== src/Drive/Client/Content/Tombstoned.antt =====
-- src/drive_client.py: what `move_to_tombstones` asks of the service.
use obsidian_sync.Base.{
  String, ◌≡◌, sym, ap, ◌∙◌, Option, some, List, [], ◌∷◌, Dict, some_or, arith,
}
use obsidian_sync.Drive.Retry.{Response, answered, http_status, no_network, Executed, returned}
use obsidian_sync.Drive.Client.{
  Service, Session, Client, Stored, Body, empty_body, update_file, get_file, pure, ◌>>=◌, ◌>>◌,
  update_with, request_once, bare_ending,
}
use obsidian_sync.Drive.Client.Returns.{and_then-returned, request_with_retry-answered}
use obsidian_sync.Drive.Client.Folder.{ensure_tombstones_folder}
use obsidian_sync.Drive.Client.Content.{given, get_parents, move_to_tombstones}

bare_ending-answered :
    {A : Type 0} (r : Response A) (a : A) → bare_ending r ≡ returned a → r ≡ answered a
unfolding bare_ending
bare_ending-answered (answered b) a h = ground (arith, h)
bare_ending-answered (http_status status) a h = absurd (cc h)
bare_ending-answered no_network a h = absurd (cc h)

module _ (service : Service) where
  get_parents-answered :
      (id : String) (s s' : Session) (parents : List String)
      → get_parents service id s ≡ (s', returned parents)
      → (s'.sent ≡ get_file id ∷ s.sent)
        × (file : Stored) × (service.on_get s.sent id 0 ≡ answered file)
        × (parents ≡ some_or file.parents [])
  unfolding get_parents request_once
  get_parents-answered id s s' parents h =
      let (t, file, e, r) =
        and_then-returned (request_once (get_file id) (λ sent. service.on_get sent id) s)
          (λ file. pure (some_or file.parents [])) s' parents h in
      (
        sym (ap (λ (x : Session × Executed (List String)). x.0.sent) r)
            ∙ sym (ap (λ (x : Session × Executed Stored). x.0.sent) e),
        file,
        bare_ending-answered (service.on_get s.sent id 0) file
            (ap (λ (x : Session × Executed Stored). x.1) e),
        sym (cc r),
      )

  -- A file that is moved to the tombstones has, by one request, been put into the tombstones folder
  -- and taken out of all the folders that the service named right before, with its properties.
  pub move_to_tombstones-moves :
      (id : String) (props : Option (Dict String)) (s s' : Session)
      → move_to_tombstones service id props s ≡ (s', returned tt)
      → (t : Session) × (tombstones_id : String) × (file : Stored) × (ensure_tombstones_folder
            service s
          ≡ (t, returned tombstones_id))
        × (service.on_get t.sent id 0 ≡ answered file)
        × (s'.sent
            ≡ update_file id (record empty_body {
              add_parents = some tombstones_id;
              remove_parents = some_or file.parents [];
              app_properties = given props;
            })
              ∷ get_file id
              ∷ t.sent)
  unfolding move_to_tombstones update_with
  move_to_tombstones-moves id props s s' h =
      let body : String → List String → Body = λ folder parents. record empty_body {
        add_parents = some folder;
        remove_parents = parents;
        app_properties = given props;
      } in
      let last : String → List String → Client (Unit {0}) =
        λ folder parents. update_with service (some id) id (body folder parents) >> pure tt in
      let (t, folder, e, r) =
        and_then-returned (ensure_tombstones_folder service s)
          (λ folder. get_parents service id >>= last folder) s' tt h in
      let (u, parents, e', r') =
        and_then-returned (get_parents service id t) (last folder) s' tt r in
      let (v, stored, e'', r'') =
        and_then-returned (update_with service (some id) id (body folder parents) u) (λ _. pure tt)
          s' tt r' in
      let (asked, file, got, named) = get_parents-answered id t u parents e' in
      let a =
        request_with_retry-answered (some id) (update_file id (body folder parents))
          (λ sent. service.on_update sent id (body folder parents)) u v stored e'' in
      (
        t,
        folder,
        file,
        e,
        got,
        sym (ap (λ (x : Session × Executed (Unit {0})). x.0.sent) r'')
            ∙ ap (λ (x : Session). x.sent) a.0
            ∙ ap (λ calls. update_file id (body folder parents) ∷ calls) asked
            ∙ ap (λ ps. update_file id (body folder ps) ∷ get_file id ∷ t.sent) named,
      )
