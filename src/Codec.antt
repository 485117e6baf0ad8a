-- ===== src/Codec.antt =====
-- src/drive_vv_codec.py: a version vector and its metadata as Drive appProperties.
mod Entries
pub mod RoundTrip
pub mod Slots
mod Tests
use Prim.Native.String.{◌++◌ as ◌+text◌}
use text.Mathlib.Text.{starts_with}
use obsidian_sync.Base.{
  ℕ, String, Bool, true, false, List, [], ◌∷◌, Option, none, some, ℤ, Dict, lookup, insert, ◌==◌,
  if◌then◌else◌, drop_chars, some_or, int_of_text, text_of_int,
}
use obsidian_sync.Vector.{VersionVector, empty, trim}

abbrev pub key_schema : String
key_schema = "ot_sync_schema"

abbrev pub key_deleted : String
key_deleted = "ot_sync_deleted"

abbrev pub key_md5 : String
key_md5 = "ot_sync_md5"

abbrev pub key_vv_prefix : String
key_vv_prefix = "ot_sync_vv_"

abbrev pub schema_version : String
schema_version = "v2"

abbrev pub max_device_keys : ℕ
max_device_keys = 28

-- f"{KEY_VV_PREFIX}{prefix}"
unfoldable pub vv_key : String → String
vv_key prefix = key_vv_prefix +text prefix

-- the loop of `encode` over the counters
unfoldable pub write_counters : Dict String → Dict ℤ → Dict String
unfolding vv_key
write_counters props [] = props
write_counters props ((prefix, hlc_ms) ∷ rest) =
    write_counters (insert (vv_key prefix) (text_of_int hlc_ms) props) rest

-- `if md5 is not None: props[KEY_MD5] = md5`
unfoldable pub write_md5 : Dict String → Option String → Dict String
write_md5 props none = props
write_md5 props (some md5) = insert key_md5 md5 props

unfoldable pub encode : VersionVector → Bool → Option String → Dict String
unfolding write_counters write_md5
encode vv deleted md5 =
    let trimmed = trim max_device_keys vv in
    let props : Dict String =
      (key_schema, schema_version) ∷ (key_deleted, if deleted then "1" else "0") ∷ [] in
    write_counters (write_md5 props md5) trimmed.counters

-- the body of the loop of `decode`: a value that is no integer is skipped
unfoldable pub read_counter : Dict ℤ → String → String → Dict ℤ
read_counter counters key value =
    if starts_with key key_vv_prefix
    then elim (int_of_text value) [
      | none ↦ counters
      | some n ↦ insert (drop_chars 11 key) n counters
    ]
    else counters

unfoldable pub read_counters : Dict ℤ → Dict String → Dict ℤ
unfolding read_counter
read_counters counters [] = counters
read_counters counters ((key, value) ∷ rest) = read_counters (read_counter counters key value) rest

-- what `decode` reads when the schema is the current one
unfoldable pub decode_v2 : Dict String → VersionVector × Bool × Option String
unfolding read_counters
decode_v2 props = (
  record { counters = read_counters [] props },
  some_or (lookup key_deleted props) "0" == "1",
  lookup key_md5 props,
)

-- `None` and the empty dict decode to the empty vector, as does any other schema.
unfoldable pub decode : Option (Dict String) → VersionVector × Bool × Option String
unfolding decode_v2
decode none = (empty, false, none)
decode (some []) = (empty, false, none)
decode (some (p ∷ props)) = elim (lookup key_schema (p ∷ props)) [
  | none ↦ (empty, false, none)
  | some schema ↦ if schema == schema_version then decode_v2 (p ∷ props) else (empty, false, none)
]
