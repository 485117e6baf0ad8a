-- ===== src/Trash/Retention.antt =====
-- What the garbage collection of the trash removes.
use obsidian_sync.Base.{
  ℕ, ◌+◌, ◌*◌, ◌<◌, String, Bool, true, false, not, ◌≡◌, ◌↔◌, refl, sym, subst, ◌∙◌, inl, inr,
  Option, none, some, [], ◌∷◌, Dict, lookup, lookup-remove, contains, keys, Distinct, if◌then◌else◌,
  ◌==◌, ◌&&◌, eq_iff, some_or, Bool-cases, arith,
}
use text.Mathlib.TextPositions.{eq_refl}
use obsidian_sync.Vault.{LocalFile}
use obsidian_sync.Trash.{
  Trash, TrashMeta, UnlinkFaults, is_expired, is_collected, drop_expired, gc_item, gc_items, gc,
}

-- A metadata file that can be read has a time of deletion, 0 if it names none, which lies more than the
-- retention before now.
abbrev pub Expired : ℕ → ℕ → Option (Option TrashMeta) → Type 0
Expired now days none = ⊥
Expired now days (some none) = ⊥
Expired now days (some (some meta)) = some_or meta.deleted_at 0 + days * 86400 < now

abbrev is_there : Option LocalFile → Bool
is_there none = false
is_there (some f) = true

-- what becomes of a body and of its metadata file: `gone` says that the item has expired and its body, if
-- there is one, can be removed
abbrev pub Left :
    UnlinkFaults
    → String
    → Option LocalFile × Option (Option TrashMeta)
    → Option LocalFile × Option (Option TrashMeta)
    → Bool
    → Type 0
Left f id before after gone =
    (after.0 ≡ (if gone then none else before.0))
    × (after.1 ≡ (if gone && not (f.meta_stays id) then none else before.1))

-- the item of an id
abbrev pub item : String → Trash → Option LocalFile × Option (Option TrashMeta)
item id t = (lookup id t.bodies, lookup id t.metas)

is_collected_iff :
    (now days : ℕ) (meta : Option TrashMeta)
    → (is_collected now days meta ≡ true) ↔ Expired now days (some meta)
unfolding is_collected is_expired
is_collected_iff now days none = (λ h. cc h, λ h. absurd h)
is_collected_iff now days (some meta) = (λ h. ground (arith, h), λ h. ground (arith, h))

-- whether an item goes
abbrev pub goes : UnlinkFaults → String → Option LocalFile → Bool → Bool
goes f id body expired = expired && not (is_there body && f.body_stays id)

module _ (f : UnlinkFaults) (now days : ℕ) where
  gc_item-other :
      (i id : String) (meta : Option TrashMeta) (t : Trash)
      → i == id ≡ false
      → item id (gc_item f now days i meta t).0 ≡ item id t
  unfolding gc_item drop_expired
  gc_item-other i id meta t apart =
      let b = lookup-remove i id t.bodies in
      let m = lookup-remove i id t.metas in ground (arith, b, m, apart)

  gc_item-Left :
      (id : String) (meta : Option TrashMeta) (t : Trash)
      → Left f id
          (item id t)
          (item id (gc_item f now days id meta t).0)
          (goes f id (lookup id t.bodies) (is_collected now days meta))
  unfolding gc_item drop_expired
  gc_item-Left id meta t =
      let b = lookup-remove id id t.bodies in
      let m = lookup-remove id id t.metas in let e = eq_refl id in ground (arith, b, m, e)

  gc_items-other :
      (id : String) (metas : Dict (Option TrashMeta)) (t : Trash)
      → contains (keys metas) id ≡ false
      → item id (gc_items f now days metas t).0 ≡ item id t
  unfolding gc_items contains keys
  gc_items-other id [] t h = refl
  gc_items-other id ((i, meta) ∷ metas) t h =
      gc_items-other id metas (gc_item f now days i meta t).0 (ground (arith, h))
      ∙ gc_item-other i id meta t (ground (arith, h, eq_iff i id, eq_iff id i))

  -- what the loop leaves of an item, by its metadata
  abbrev Collects : String → Option (Option TrashMeta) → Trash → Trash → Type 0
  Collects id meta before after =
      (expired : Bool) × ((expired ≡ true) ↔ Expired now days meta)
      × Left f id (item id before) (item id after) (goes f id (lookup id before.bodies) expired)

  gc_items-Collects :
      (id : String) (metas : Dict (Option TrashMeta)) (t : Trash)
      → Distinct metas
      → Collects id (lookup id metas) t (gc_items f now days metas t).0
  unfolding gc_items lookup
  gc_items-Collects id [] t d = (false, (λ h. cc h, λ h. absurd h), (refl, refl))
  gc_items-Collects id ((i, meta) ∷ metas) t d = elim (Bool-cases (i == id)) [
    | inl same ↦
        let e : i ≡ id = (eq_iff i id).0 same in
        let next = (gc_item f now days i meta t).0 in
        let rest : item id (gc_items f now days metas next).0 ≡ item id next =
          gc_items-other id metas next (subst (λ k. contains (keys metas) k ≡ false) e d.0) in
        rw (lookup, same)
          (
            is_collected now days meta,
            is_collected_iff now days meta,
            subst
                (λ (x : Option LocalFile × Option (Option TrashMeta)).
                  Left f id (item id t) x
                    (goes f id (lookup id t.bodies) (is_collected now days meta)))
                (sym rest)
                (subst
                  (λ j.
                    Left f id (item id t) (item id (gc_item f now days j meta t).0)
                      (goes f id (lookup id t.bodies) (is_collected now days meta)))
                  (sym e) (gc_item-Left id meta t)),
          )
    | inr other ↦
        let next = (gc_item f now days i meta t).0 in
        let (expired, iff, left) = gc_items-Collects id metas next d.1 in
        rw (lookup, other)
          (
            expired,
            iff,
            subst
                (λ (x : Option LocalFile × Option (Option TrashMeta)).
                  Left f id x (item id (gc_items f now days metas next).0) (goes f id x.0 expired))
                (gc_item-other i id meta t other) left,
          )
  ]

-- An item has expired if its metadata could be read and its retention has passed. The body of exactly
-- the expired items is removed, but for those whose removal fails; where it does not fail, the metadata
-- is removed too, unless that fails. All other bodies and metadata files stay as they are. The names of
-- the metadata files are distinct.
pub gc-Collects :
    (f : UnlinkFaults) (now days : ℕ) (t : Trash) (id : String)
    → Distinct t.metas
    → (expired : Bool) × ((expired ≡ true) ↔ Expired now days (lookup id t.metas))
      × Left f id (item id t) (item id (gc f now days t).0) (goes f id (lookup id t.bodies) expired)
unfolding gc
gc-Collects f now days t id distinct = gc_items-Collects f now days id t.metas t distinct
