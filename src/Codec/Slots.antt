-- ===== src/Codec/Slots.antt =====
-- How many of Drive's keys `encode` uses. Drive allows 30 keys to a file.
use obsidian_sync.Base.{
  ℕ, suc, ◌+◌, ◌≤◌, String, Bool, ◌≡◌, refl, ap, ◌∙◌, List, [], ◌∷◌, ◌++◌, Option, none, some, ℤ,
  true, Dict, Distinct, insert, length, arith, leb, if◌then◌else◌, Bool-cases, inl, inr,
}
use obsidian_sync.Vector.{VersionVector, trim}
use obsidian_sync.Vector.Trim.{length-trim}
use obsidian_sync.Vector.TrimKeys.{trim-Distinct}
use obsidian_sync.Codec.{encode, max_device_keys, write_md5}
use obsidian_sync.Codec.Entries.{entries, reserved, encode-entries}

length-append {ℓ} : {A : Type ℓ} (xs ys : List A) → length (xs ++ ys) ≡ length xs + length ys
length-append [] ys = omega arith
length-append (x ∷ xs) ys = omega (arith, length-append xs ys)

length-entries : (c : Dict ℤ) → length (entries c) ≡ length c
unfolding entries
length-entries [] = refl
length-entries (e ∷ c) = ap suc (length-entries c)

abbrev extra : Option String → ℕ
extra none = 0
extra (some md5) = 1

length-reserved :
    (deleted : Bool) (md5 : Option String) → length (reserved deleted md5) ≡ 2 + extra md5
unfolding reserved write_md5 insert
length-reserved deleted none = refl
length-reserved deleted (some md5) = refl

length-encode :
    (vv : VersionVector) (deleted : Bool) (md5 : Option String)
    → Distinct vv.counters
    → length (encode vv deleted md5) ≡ 2 + extra md5 + length (trim max_device_keys vv).counters
length-encode vv deleted md5 u =
    let c = (trim max_device_keys vv).counters in
    ap length (encode-entries vv deleted md5 (trim-Distinct max_device_keys vv u))
    ∙ length-append (reserved deleted md5) (entries c)
    ∙ omega (arith, length-reserved deleted md5, length-entries c)

-- how many devices the Drive gets to know
abbrev pub kept_devices : VersionVector → ℕ
kept_devices vv = if leb (length vv.counters) 28 then length vv.counters else 28

trim-small : (n : ℕ) (vv : VersionVector) → leb (length vv.counters) n ≡ true → trim n vv ≡ vv
unfolding trim
trim-small n vv small = rw small refl

length-trimmed : (vv : VersionVector) → length (trim max_device_keys vv).counters ≡ kept_devices vv
length-trimmed vv = elim (Bool-cases (leb (length vv.counters) 28)) [
  | inl small ↦
      rw small (ap (λ (v : VersionVector). length v.counters) (trim-small max_device_keys vv small))
  | inr large ↦ rw large (length-trim max_device_keys vv (ground (arith, large)))
]

-- The properties hold one key for each device, of which no more than 28 are taken, two more, and a
-- third one more with a hash. So without a hash they stay within Drive's 30 keys; with one they are
-- 31 if the vector has 28 devices or more: the limit on devices is one too large for `ot_sync_md5`.
pub encode-slots :
    (vv : VersionVector) (deleted : Bool) (md5 : String)
    → Distinct vv.counters
    → (length (encode vv deleted none) ≡ 2 + kept_devices vv)
      × (2 + kept_devices vv ≤ 30)
      × (length (encode vv deleted (some md5)) ≡ 3 + kept_devices vv)
encode-slots vv deleted md5 u = (
  omega (arith, length-encode vv deleted none u, length-trimmed vv),
  ground arith,
  omega (arith, length-encode vv deleted (some md5) u, length-trimmed vv),
)
