-- ===== src/Drive/Client/Folder/Ensured.antt =====
-- src/drive_client.py: `ensure_folder_path` asks the service once for a folder.
use Prim.Native.String.{◌++◌ as ◌+text◌}
use obsidian_sync.Base.{
  String, false, ◌≡◌, refl, sym, ap, subst, ◌∙◌, inl, inr, some, List, [], ◌∷◌, Bool-cases,
  Option-cases, arith, eq_iff, ◌==◌, segments, first_segment, later_segments, strip_slashes,
  join_segments, join-segments, starts_with_slash,
}
use text.Mathlib.TextPositions.{eq_refl}
use obsidian_sync.Drive.Retry.{Executed, returned}
use obsidian_sync.Drive.Client.{Service, Session}
use obsidian_sync.Drive.Client.Returns.{and_then-returned}
use obsidian_sync.Drive.Client.Folder.Added.{Keeps, IsNamed, add_folder-caches}
use obsidian_sync.Drive.Client.Folder.{
  cached, is_root, ensure_folder, ensure_parts, ensure_folder_path,
}

module _ (service : Service) where
  -- After `ensure_folder` the folder is cached.
  ensure_folder-Keeps :
      (part parent_id built : String) (s s' : Session) (id : String)
      → IsNamed service
      → ensure_folder service part parent_id built s ≡ (s', returned id)
      → Keeps s s' × (cached built s' ≡ some id)
  unfolding ensure_folder
  ensure_folder-Keeps part parent_id built s s' id named h = elim (Option-cases (cached built s)) [
    | inr (old, there) ↦
        let same : (s ≡ s') × (old ≡ id) = ground (arith, there, h) in
        (
          λ path x e. subst (λ (t : Session). cached path t ≡ some x) same.0 e,
          subst (λ (t : Session). cached built t ≡ some id) same.0 (there ∙ ap some same.1),
        )
    | inl absent ↦
        let c =
          add_folder-caches service part parent_id built s s' id named
            (rw (ensure_folder, absent) at h) in
        (
          λ path x e. elim (Bool-cases (built == path)) [
            | inl same ↦ absurd (cc (ap (λ z. cached z s) ((eq_iff built path).0 same), absent, e))
            | inr other ↦ c path ∙ rw other e
          ],
          c built ∙ rw (eq_refl built) refl,
        )
  ]

  -- After the loop the folders are cached, the last one under the joined path.
  ensure_parts-Keeps :
      (parts : List String) (parent_id built : String) (s s' : Session) (id : String)
      → IsNamed service
      → ensure_parts service parts parent_id built s ≡ (s', returned id)
      → Keeps s s'
        × (cached built s ≡ some parent_id → cached (join_segments built parts) s' ≡ some id)
  unfolding ensure_parts join_segments
  ensure_parts-Keeps [] parent_id built s s' id named h =
      let same : (s ≡ s') × (parent_id ≡ id) =
        (ap (λ (x : Session × Executed String). x.0) h, cc h) in
      (
        λ path x e. subst (λ (t : Session). cached path t ≡ some x) same.0 e,
        λ c. subst (λ (t : Session). cached built t ≡ some id) same.0 (c ∙ ap some same.1),
      )
  ensure_parts-Keeps (part ∷ parts) parent_id built s s' id named h =
      let longer = strip_slashes (built +text ("/" +text part)) in
      let (u, one, e, r) =
        and_then-returned (ensure_folder service part parent_id longer s)
          (λ one. ensure_parts service parts one longer) s' id h in
      let first = ensure_folder-Keeps part parent_id longer s u one named e in
      let rest = ensure_parts-Keeps parts one longer u s' id named r in
      (λ path x c. rest.0 path x (first.0 path x c), λ _. rest.1 first.1)

  -- the loop over the segments of a path caches it
  segments-cached :
      (first : String) (parts : List String) (parent_id : String) (s s' : Session) (id : String)
      → IsNamed service
      → ensure_parts service (first ∷ parts) parent_id "" s ≡ (s', returned id)
      → Keeps s s' × (cached (join_segments "" (first ∷ parts)) s' ≡ some id)
  unfolding ensure_parts join_segments
  segments-cached part parts parent_id s s' id named h =
      let longer = strip_slashes ("" +text ("/" +text part)) in
      let (u, one, e, r) =
        and_then-returned (ensure_folder service part parent_id longer s)
          (λ one. ensure_parts service parts one longer) s' id h in
      let first = ensure_folder-Keeps part parent_id longer s u one named e in
      let rest = ensure_parts-Keeps parts one longer u s' id named r in
      (λ path x c. rest.0 path x (first.0 path x c), rest.1 first.1)

  -- What is cached stays cached, and the path's folder is.
  ensure_folder_path-Keeps :
      (path : String) (s s' : Session) (id : String)
      → IsNamed service
      → starts_with_slash path ≡ false
      → is_root path ≡ false
      → ensure_folder_path service path s ≡ (s', returned id)
      → Keeps s s' × (cached path s' ≡ some id)
  unfolding ensure_folder_path segments
  ensure_folder_path-Keeps path s s' id named relative inner h =
      elim (Option-cases (cached path s)) [
        | inr (old, there) ↦
            let e : ◌≡◌ {A = Session × Executed String} (s, returned old) (s', returned id) =
              rw (ensure_folder_path, inner, there) at h in
            let same : s ≡ s' = ap (λ (x : Session × Executed String). x.0) e in
            (
              λ p x c. subst (λ (t : Session). cached p t ≡ some x) same c,
              subst (λ (t : Session). cached path t ≡ some id) same (there ∙ ap some (cc e)),
            )
        | inl absent ↦
            let c =
              segments-cached (first_segment path) (later_segments path) s.root s s' id named
                (rw (ensure_folder_path, inner, absent) at h) in
            (c.0, ap (λ p. cached p s') (sym (join-segments path relative)) ∙ c.1)
      ]

  -- `ensure_folder_path` returns an id: then a second call for the same path, directly or after
  -- others that forget no cached folder, returns the same id, sends no request and changes nothing.
  -- No first call forgets one either. The path does not start with a slash, and the service's ids of
  -- new folders are not empty.
  pub ensure_folder_path-twice :
      (path : String) (s s' t : Session) (id : String)
      → IsNamed service
      → starts_with_slash path ≡ false
      → ensure_folder_path service path s ≡ (s', returned id)
      → Keeps s' t
      → t.root ≡ s.root
      → Keeps s s' × (ensure_folder_path service path t ≡ (t, returned id))
  unfolding ensure_folder_path
  ensure_folder_path-twice path s s' t id named relative h k root =
      elim (Bool-cases (is_root path)) [
        | inl at_root ↦
            let e : ◌≡◌ {A = Session × Executed String} (s, returned s.root) (s', returned id) =
              rw (ensure_folder_path, at_root) at h in
            (
              λ p x c.
                  subst (λ (u : Session). cached p u ≡ some x)
                    (ap (λ (x : Session × Executed String). x.0) e) c,
              rw (ensure_folder_path, at_root) (ap (λ x. (t, returned x)) (root ∙ cc e)),
            )
        | inr inner ↦
            let c = ensure_folder_path-Keeps path s s' id named relative inner h in
            (c.0, rw (ensure_folder_path, inner, k path id c.1) refl)
      ]
