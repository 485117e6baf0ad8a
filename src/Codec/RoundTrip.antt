-- ===== src/Codec/RoundTrip.antt =====
-- What `encode` writes, `decode` reads.
use obsidian_sync.Base.{
  ◌≤◌, String, Bool, true, false, ◌≡◌, refl, ap, ◌∙◌, [], ◌∷◌, ◌++◌, Option, some, ℤ, Dict, lookup,
  ◌==◌, Distinct, insert_all-Fresh, Fresh-nil, if◌then◌else◌, length, le→leb,
}
use obsidian_sync.Vector.{VersionVector, trim}
use obsidian_sync.Vector.TrimKeys.{trim-Distinct}
use obsidian_sync.Codec.{encode, decode, decode_v2, max_device_keys, key_schema, schema_version}
use obsidian_sync.Codec.Entries.{
  entries, reserved, encode-entries, read_counters-entries, read_counters-reserved, lookup-reserved,
}

decode_as_v2 :
    (props : Dict String)
    → lookup key_schema props ≡ some schema_version
    → decode (some props) ≡ decode_v2 props
unfolding decode lookup
decode_as_v2 [] h = cc
decode_as_v2 (p ∷ props) h = rw (h, decode)

flag : (deleted : Bool) → ((if deleted then "1" else "0") == "1") ≡ deleted
flag true = refl
flag false = refl

decode_v2-entries :
    (deleted : Bool) (md5 : Option String) (c : Dict ℤ)
    → Distinct c
    → decode_v2 (reserved deleted md5 ++ entries c) ≡ (record { counters = c }, deleted, md5)
unfolding decode_v2
decode_v2-entries deleted md5 c u =
    let found = lookup-reserved deleted md5 c in
    let read =
      read_counters-reserved deleted md5 [] (entries c)
      ∙ read_counters-entries [] c
      ∙ insert_all-Fresh [] c u (Fresh-nil ℤ c) in
    rw (found.1, found.2, read) (ap (λ b. (record { counters = c }, b, md5)) (flag deleted))

-- Decoding what was encoded gives back the vector, trimmed to 28 devices, the deletion mark and the
-- hash, if the prefixes are distinct, as they are in a dict.
pub decode-encode :
    (vv : VersionVector) (deleted : Bool) (md5 : Option String)
    → Distinct vv.counters
    → decode (some (encode vv deleted md5)) ≡ (trim max_device_keys vv, deleted, md5)
decode-encode vv deleted md5 u =
    let d = trim-Distinct max_device_keys vv u in
    let c = (trim max_device_keys vv).counters in
    let found = lookup-reserved deleted md5 c in
    rw (encode-entries vv deleted md5 d)
      (decode_as_v2 (reserved deleted md5 ++ entries c) found.0 ∙ decode_v2-entries deleted md5 c d)

trim_small :
    (vv : VersionVector) → length vv.counters ≤ max_device_keys → trim max_device_keys vv ≡ vv
unfolding trim
trim_small vv h = rw (le→leb (length vv.counters) max_device_keys h)

-- A vector of at most 28 devices comes back whole.
pub decode-encode_small :
    (vv : VersionVector) (deleted : Bool) (md5 : Option String)
    → Distinct vv.counters
    → length vv.counters ≤ max_device_keys
    → decode (some (encode vv deleted md5)) ≡ (vv, deleted, md5)
decode-encode_small vv deleted md5 u h =
    decode-encode vv deleted md5 u ∙ ap (λ v. (v, deleted, md5)) (trim_small vv h)
