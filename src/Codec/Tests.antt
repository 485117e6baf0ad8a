-- ===== src/Codec/Tests.antt =====
-- The codec theorems at concrete vectors.
use obsidian_sync.Base.{
  ◌+◌, ◌≤◌, text_of_int, insert, true, false, ◌≡◌, refl, [], ◌∷◌, none, some, pos, Distinct, keys,
  contains, lookup, length,
}
use obsidian_sync.Vector.{empty, VersionVector, trim}
use obsidian_sync.Codec.{encode, decode, max_device_keys}
use obsidian_sync.Codec.RoundTrip.{decode-encode}
use obsidian_sync.Codec.Slots.{kept_devices, encode-slots}

abbrev two_devices : VersionVector
two_devices = record { counters = ("laptop00", pos 7) ∷ ("phone000", pos 2) ∷ [] }

two_devices-Distinct : Distinct two_devices.counters
unfolding contains keys
two_devices-Distinct = (refl, (refl, tt))

encode_two :
    encode two_devices true (some "d41d")
    ≡ ("ot_sync_schema", "v2")
      ∷ ("ot_sync_deleted", "1")
      ∷ ("ot_sync_md5", "d41d")
      ∷ ("ot_sync_vv_laptop00", "7")
      ∷ ("ot_sync_vv_phone000", "2")
      ∷ []
unfolding encode trim insert text_of_int
encode_two = refl

decode_v1 : decode (some (("other", "x") ∷ [])) ≡ (record { counters = [] }, false, none)
unfolding decode lookup empty
decode_v1 = refl

decode-encode_example :
    decode (some (encode two_devices true (some "d41d")))
    ≡ (trim max_device_keys two_devices, true, some "d41d")
decode-encode_example = decode-encode two_devices true (some "d41d") two_devices-Distinct

abbrev many_devices : VersionVector
many_devices = record {
  counters =
      ("d0", pos 0)
      ∷ ("d1", pos 1)
      ∷ ("d2", pos 2)
      ∷ ("d3", pos 3)
      ∷ ("d4", pos 4)
      ∷ ("d5", pos 5)
      ∷ ("d6", pos 6)
      ∷ ("d7", pos 7)
      ∷ ("d8", pos 8)
      ∷ ("d9", pos 9)
      ∷ ("d10", pos 10)
      ∷ ("d11", pos 11)
      ∷ ("d12", pos 12)
      ∷ ("d13", pos 13)
      ∷ ("d14", pos 14)
      ∷ ("d15", pos 15)
      ∷ ("d16", pos 16)
      ∷ ("d17", pos 17)
      ∷ ("d18", pos 18)
      ∷ ("d19", pos 19)
      ∷ ("d20", pos 20)
      ∷ ("d21", pos 21)
      ∷ ("d22", pos 22)
      ∷ ("d23", pos 23)
      ∷ ("d24", pos 24)
      ∷ ("d25", pos 25)
      ∷ ("d26", pos 26)
      ∷ ("d27", pos 27)
      ∷ ("d28", pos 28)
      ∷ [];
}

many_devices-Distinct : Distinct many_devices.counters
unfolding contains keys
many_devices-Distinct = (
  refl,
  (
    refl,
    (
      refl,
      (
        refl,
        (
          refl,
          (
            refl,
            (
              refl,
              (
                refl,
                (
                  refl,
                  (
                    refl,
                    (
                      refl,
                      (
                        refl,
                        (
                          refl,
                          (
                            refl,
                            (
                              refl,
                              (
                                refl,
                                (
                                  refl,
                                  (
                                    refl,
                                    (
                                      refl,
                                      (
                                        refl,
                                        (
                                          refl,
                                          (
                                            refl,
                                            (
                                              refl,
                                              (refl, (refl, (refl, (refl, (refl, (refl, tt)))))),
                                            ),
                                          ),
                                        ),
                                      ),
                                    ),
                                  ),
                                ),
                              ),
                            ),
                          ),
                        ),
                      ),
                    ),
                  ),
                ),
              ),
            ),
          ),
        ),
      ),
    ),
  ),
)

encode-slots_example :
    (length (encode many_devices false none) ≡ 2 + kept_devices many_devices)
    × (2 + kept_devices many_devices ≤ 30)
    × (length (encode many_devices false (some "d41d")) ≡ 3 + kept_devices many_devices)
encode-slots_example = encode-slots many_devices false "d41d" many_devices-Distinct
