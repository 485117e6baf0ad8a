-- ===== src/Codec/Entries.antt =====
-- What the loop of `encode` writes, and what the loop of `decode` makes of it, entry by entry.
use text.Mathlib.Text.{starts_with}
use text.Mathlib.TextLemmas.{append_cancel_left}
use text.Mathlib.TextPositions.{starts_with-append, eq_refl}
use obsidian_sync.Base.{
  insert_all, int_of_text-text_of_int, sym, ap, ◌∙◌, keys, contains, Distinct, Fresh,
  insert_all-Fresh, Bool-cases, refuted, inl, inr, false≢true, String, Bool, true, false, ◌≡◌, refl,
  [], ◌∷◌, ◌++◌, Option, none, some, ℤ, Dict, lookup, insert, ◌==◌, eq_iff, if◌then◌else◌, chars,
  drop_chars-append, drop_chars, text_of_int, arith,
}
use obsidian_sync.Vector.{VersionVector, trim}
use obsidian_sync.Codec.{
  vv_key, write_counters, read_counters, write_md5, max_device_keys, key_schema, key_deleted,
  key_md5, schema_version, encode, read_counter, key_vv_prefix,
}

drop_chars-vv_key : (k : String) → drop_chars 11 (vv_key k) ≡ k
unfolding vv_key chars
drop_chars-vv_key k = drop_chars-append key_vv_prefix k

-- the entries that the loop of `encode` writes
unfoldable pub entries : Dict ℤ → Dict String
entries [] = []
entries ((k, n) ∷ c) = (vv_key k, text_of_int n) ∷ entries c

write_counters-entries :
    (props : Dict String) (c : Dict ℤ) → write_counters props c ≡ insert_all props (entries c)
unfolding write_counters insert_all entries
write_counters-entries props [] = refl
write_counters-entries props ((k, n) ∷ c) =
    write_counters-entries (insert (vv_key k) (text_of_int n) props) c

starts_with-vv_key : (k : String) → starts_with (vv_key k) key_vv_prefix ≡ true
unfolding vv_key
starts_with-vv_key k = starts_with-append key_vv_prefix k

read_counter-entry :
    (acc : Dict ℤ) (k : String) (n : ℤ)
    → read_counter acc (vv_key k) (text_of_int n) ≡ insert k n acc
unfolding read_counter
read_counter-entry acc k n =
    rw (starts_with-vv_key k, int_of_text-text_of_int n, drop_chars-vv_key k)

pub read_counters-entries : (acc c : Dict ℤ) → read_counters acc (entries c) ≡ insert_all acc c
unfolding read_counters insert_all entries
read_counters-entries acc [] = refl
read_counters-entries acc ((k, n) ∷ c) =
    ap (λ d. read_counters d (entries c)) (read_counter-entry acc k n)
    ∙ read_counters-entries (insert k n acc) c

vv_key-injective : (j k : String) → vv_key j ≡ vv_key k → j ≡ k
unfolding vv_key
vv_key-injective j k e = append_cancel_left key_vv_prefix j k e

vv_key-eq : (j k : String) → (vv_key j == vv_key k) ≡ (j == k)
vv_key-eq j k = elim (Bool-cases (j == k)) [
  | inl same ↦ rw (same, (eq_iff j k).0 same) (eq_refl (vv_key k))
  | inr other ↦ rw other (
      refuted (vv_key j == vv_key k) (λ e.
        let p = vv_key-injective j k ((eq_iff (vv_key j) (vv_key k)).0 e) in
        ground (arith, eq_iff j k)))
]

contains-entries :
    (c : Dict ℤ) (k : String) → contains (keys (entries c)) (vv_key k) ≡ contains (keys c) k
unfolding contains keys entries
contains-entries [] k = refl
contains-entries ((j, n) ∷ c) k = rw (vv_key-eq j k, contains-entries c k)

entries-Distinct : (c : Dict ℤ) → Distinct c → Distinct (entries c)
unfolding entries
entries-Distinct [] h = tt
entries-Distinct ((k, n) ∷ c) h = (contains-entries c k ∙ h.0, entries-Distinct c h.1)

-- no reserved key looks like the key of a counter
not_vv_key : (j k : String) → starts_with j key_vv_prefix ≡ false → (j == vv_key k) ≡ false
not_vv_key j k h = refuted (j == vv_key k) (λ e. false≢true (
    sym h
    ∙ ap (λ s. starts_with s key_vv_prefix) ((eq_iff j (vv_key k)).0 e)
    ∙ starts_with-vv_key k))

-- the entries before the counters
unfoldable pub reserved : Bool → Option String → Dict String
reserved deleted md5 =
    write_md5 ((key_schema, schema_version) ∷ (key_deleted, if deleted then "1" else "0") ∷ []) md5

reserved_keys-Fresh :
    (deleted : Bool) (md5 : Option String) (c : Dict ℤ) → Fresh (entries c) (reserved deleted md5)
unfolding entries reserved write_md5 contains keys insert
reserved_keys-Fresh deleted none [] = tt
reserved_keys-Fresh deleted none ((k, n) ∷ c) = (
  ground (arith, not_vv_key key_schema k refl, not_vv_key key_deleted k refl),
  reserved_keys-Fresh deleted none c,
)
reserved_keys-Fresh deleted (some m) [] = tt
reserved_keys-Fresh deleted (some m) ((k, n) ∷ c) = (
  ground (
    arith,
    not_vv_key key_schema k refl,
    not_vv_key key_deleted k refl,
    not_vv_key key_md5 k refl,
  ),
  reserved_keys-Fresh deleted (some m) c,
)

-- With distinct prefixes `encode` writes the reserved keys and then one entry for each counter.
pub encode-entries :
    (vv : VersionVector) (deleted : Bool) (md5 : Option String)
    → Distinct (trim max_device_keys vv).counters
    → encode vv deleted md5 ≡ reserved deleted md5 ++ entries (trim max_device_keys vv).counters
unfolding encode reserved
encode-entries vv deleted md5 u =
    let c = (trim max_device_keys vv).counters in
    write_counters-entries (reserved deleted md5) c
    ∙ insert_all-Fresh (reserved deleted md5) (entries c) (entries-Distinct c u)
        (reserved_keys-Fresh deleted md5 c)

pub read_counters-reserved :
    (deleted : Bool) (md5 : Option String) (acc : Dict ℤ) (rest : Dict String)
    → read_counters acc (reserved deleted md5 ++ rest) ≡ read_counters acc rest
unfolding read_counters reserved write_md5 insert
read_counters-reserved deleted none acc rest = refl
read_counters-reserved deleted (some m) acc rest = refl

md5_absent : (c : Dict ℤ) → lookup key_md5 (entries c) ≡ none
unfolding lookup entries
md5_absent [] = refl
md5_absent ((k, n) ∷ c) = ground (
  arith,
  md5_absent c,
  not_vv_key key_md5 k refl,
  eq_iff key_md5 (vv_key k),
  eq_iff (vv_key k) key_md5,
)

-- the lookups of `decode` stop at the reserved keys
pub lookup-reserved :
    (deleted : Bool) (md5 : Option String) (c : Dict ℤ)
    → let props = reserved deleted md5 ++ entries c in
      (lookup key_schema props ≡ some schema_version)
      × (lookup key_deleted props ≡ some (if deleted then "1" else "0"))
      × (lookup key_md5 props ≡ md5)
unfolding lookup reserved write_md5 insert
lookup-reserved deleted none c = (refl, refl, md5_absent c)
lookup-reserved deleted (some m) c = (refl, refl, refl)
