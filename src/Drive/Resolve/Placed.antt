-- ===== src/Drive/Resolve/Placed.antt =====
-- The path of a file in the vault is that of its folders up to the root.
use obsidian_sync.Base.{
  ℕ, zero, suc, String, ◌≡◌, refl, sym, subst, ap, ◌∙◌, inl, inr, Option, none, some, List, [], ◌∷◌,
  lookup, lookup-insert, contains, if◌then◌else◌, if_intro, truthy_text, ◌==◌, some_or, eq_iff,
  Bool-cases, Option-cases,
}
use obsidian_sync.Drive.Folders.{Caches, add_vault, add_non_vault}
use obsidian_sync.Drive.Resolve.{
  FolderReply, folder_meta, folder_missing, folder_error, join_path, register, descend, Turn, known,
  foreign, vanished, unread, climbing, topmost, answer_turn, turn, trace, resolve_vault_rel_path,
  path_ids,
}

module _ (get_folder : String → FolderReply) (root : String) where
  -- The folder's path below the root: the names of the folders from the root down to it.
  pub data PathOf : String → String → Type 0 where
    at_root : PathOf root ""
    inside :
        (id parent_id segment rel : String) (others : List String)
        → get_folder id ≡ folder_meta segment (parent_id ∷ others)
        → PathOf parent_id rel
        → PathOf id (join_path rel segment)

  -- the cached paths are right
  abbrev pub IsPlaced : Caches → Type 0
  IsPlaced c = (id rel : String) → lookup id c.folder_id_to_rel ≡ some rel → PathOf id rel

  -- each collected folder has the next one for its first parent
  abbrev Linked : String → List (String × String) → Type 0
  Linked current [] = Unit
  Linked current ((id, segment) ∷ visited) =
      ((others : List String) × (get_folder id ≡ folder_meta segment (current ∷ others)))
      × Linked id visited

  -- the folder that the search began with
  abbrev start_of : String → List (String × String) → String
  start_of current [] = current
  start_of current ((id, segment) ∷ visited) = start_of id visited

  register-IsPlaced :
      (id rel : String) (c : Caches) → PathOf id rel → IsPlaced c → IsPlaced (register id rel c)
  unfolding register add_vault
  register-IsPlaced id rel c path placed k r found = elim (Bool-cases (id == k)) [
    | inl same ↦
        let e : (if id == k then some rel else lookup k c.folder_id_to_rel) ≡ some rel =
          rw same refl in
        let r_eq : rel ≡ r =
          ap (λ o. some_or o rel) (sym (lookup-insert id k rel c.folder_id_to_rel ∙ e) ∙ found) in
        subst (λ x. PathOf x r) ((eq_iff id k).0 same) (subst (λ x. PathOf id x) r_eq path)
    | inr other ↦
        let e : (if id == k then some rel else lookup k c.folder_id_to_rel)
            ≡ lookup k c.folder_id_to_rel =
          rw other refl in
        placed k r (sym (lookup-insert id k rel c.folder_id_to_rel ∙ e) ∙ found)
  ]

  descend-IsPlaced :
      (current rel : String) (visited : List (String × String)) (c : Caches)
      → PathOf current rel
      → Linked current visited
      → IsPlaced c
      → IsPlaced (descend rel visited c).0
        × PathOf (start_of current visited) (descend rel visited c).1
  unfolding descend
  descend-IsPlaced current rel [] c path linked placed = (placed, path)
  descend-IsPlaced current rel ((id, segment) ∷ visited) c path linked placed =
      let below = inside id current segment rel linked.0.0 linked.0.1 path in
      descend-IsPlaced id (join_path rel segment) visited (register id (join_path rel segment) c)
        below linked.1 (register-IsPlaced id (join_path rel segment) c below placed)

  -- a path that is found is that of the folder with the name of the file
  abbrev pub Resolves : String → String → Caches × Option String → Type 0
  Resolves folder name (c, none) = IsPlaced c
  Resolves folder name (c, some path) =
      IsPlaced c × ((rel : String) × PathOf folder rel × (path ≡ join_path rel name))

  abbrev Allowed : String → Turn → Type 0
  Allowed current (known rel) = PathOf current rel
  Allowed current (climbing segment parent_id) =
      (others : List String) × (get_folder current ≡ folder_meta segment (parent_id ∷ others))
  Allowed current _ = Unit

  answer_turn-Allowed :
      (current : String) (reply : FolderReply)
      → get_folder current ≡ reply
      → Allowed current (answer_turn reply)
  unfolding answer_turn
  answer_turn-Allowed current (folder_meta segment []) h = tt
  answer_turn-Allowed current (folder_meta segment (parent_id ∷ others)) h = (others, h)
  answer_turn-Allowed current folder_missing h = tt
  answer_turn-Allowed current folder_error h = tt

  turn-Allowed :
      (current : String) (c : Caches) → IsPlaced c → Allowed current (turn get_folder current c)
  unfolding turn
  turn-Allowed current c placed = elim (Option-cases (lookup current c.folder_id_to_rel)) [
    | inr (rel, found) ↦ rw (turn, found) (placed current rel found)
    | inl absent ↦ elim (Bool-cases (contains c.non_vault_ids current)) [
      | inl strange ↦ rw (turn, absent, strange) tt
      | inr unknown ↦
          rw (turn, absent, unknown) (answer_turn-Allowed current (get_folder current) refl)
    ]
  ]

  turn-Resolves :
      (depth : ℕ) (name current : String) (visited : List (String × String)) (c : Caches)
      → Linked current visited
      → IsPlaced c
      → ((current : String) (visited : List (String × String))
          → Linked current visited
          → Resolves
              (start_of current visited)
              name
              (trace get_folder depth name current visited c))
      → (t : Turn) → Allowed current t
      → Resolves (start_of current visited) name (elim t as (λ x. Caches × Option String) [
        | known rel ↦ ((descend rel visited c).0, some (join_path (descend rel visited c).1 name))
        | foreign ↦ (add_non_vault (path_ids get_folder visited) c, none)
        | vanished ↦ (add_non_vault (current ∷ path_ids get_folder visited) c, none)
        | unread ↦ (c, none)
        | topmost ↦ (add_non_vault (current ∷ path_ids get_folder visited) c, none)
        | climbing segment parent_id ↦
            trace get_folder depth name parent_id ((current, segment) ∷ visited) c
      ])
  unfolding add_non_vault
  turn-Resolves depth name current visited c linked placed later (known rel) h =
      let d = descend-IsPlaced current rel visited c h linked placed in
      (d.0, ((descend rel visited c).1, d.1, refl))
  turn-Resolves depth name current visited c linked placed later foreign h = placed
  turn-Resolves depth name current visited c linked placed later vanished h = placed
  turn-Resolves depth name current visited c linked placed later unread h = placed
  turn-Resolves depth name current visited c linked placed later topmost h = placed
  turn-Resolves depth name current visited c linked placed later (climbing segment parent_id) h =
      later parent_id ((current, segment) ∷ visited) (h, linked)

  trace-Resolves :
      (depth : ℕ) (name current : String) (visited : List (String × String)) (c : Caches)
      → Linked current visited
      → IsPlaced c
      → Resolves (start_of current visited) name (trace get_folder depth name current visited c)
  unfolding trace
  trace-Resolves zero name current visited c linked placed = placed
  trace-Resolves (suc depth) name current visited c linked placed =
      turn-Resolves depth name current visited c linked placed
        (λ current' visited' linked'. trace-Resolves depth name current' visited' c linked' placed)
        (turn get_folder current c) (turn-Allowed current c placed)

  -- If the cached paths are right, they are right after the search for a file's path, and a path that
  -- is found is that of the first parent with the name of the file.
  pub resolve_vault_rel_path-Resolves :
      (parent_id : String) (others : List String) (name : String) (c : Caches)
      → IsPlaced c
      → Resolves parent_id name (resolve_vault_rel_path get_folder root (parent_id ∷ others) name c)
  unfolding resolve_vault_rel_path join_path truthy_text
  resolve_vault_rel_path-Resolves parent_id others name c placed =
      let P = Resolves parent_id name in
      if_intro P (truthy_text name) _ _
        (λ _.
          if_intro P (parent_id == root) _ _
            (λ same. (
              placed,
              ("", subst (λ x. PathOf x "") (sym ((eq_iff parent_id root).0 same)) at_root, refl),
            ))
            (λ _.
              if_intro P (contains c.non_vault_ids parent_id) _ _ (λ _. placed)
                (λ _. elim (Option-cases (lookup parent_id c.folder_id_to_rel)) [
                  | inr (rel, found) ↦ rw found (placed, (rel, placed parent_id rel found, refl))
                  | inl absent ↦ rw absent (trace-Resolves 32 name parent_id [] c tt placed)
                ])))
        (λ _. placed)
