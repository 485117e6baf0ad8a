-- ===== src/Hash.antt =====
-- src/hash.py: the MD5 digest of a file, chunk by chunk. `hashlib.md5` is a parameter. A file's bytes are
-- numbers.
pub mod Whole
mod Tests
use obsidian_sync.Base.{
  ℕ, zero, suc, ◌+◌, ◌*◌, String, Bool, true, false, Option, none, some, List, [], ◌∷◌, ltb,
  if◌then◌else◌, some_or, length,
}

abbrev pub default_max_file_size_mb : ℕ
default_max_file_size_mb = 100

abbrev pub chunk_size : ℕ
chunk_size = 8192

-- the state of a digest: its start, an update and the hexadecimal digest
pub record Md5 : Type 1 where
  pub State : Type 0
  pub start : State
  pub update : State → List ℕ → State
  pub hexdigest : State → String

-- A file as the program meets it: the size that `stat` gives, the bytes if it can be opened, and
-- whether the read after so many others fails.
pub record ReadFile : Type 0 where
  pub size : Option ℕ
  pub content : Option (List ℕ)
  pub read_fails : ℕ → Bool

-- `f.read(n)`, and what is left
unfoldable pub front : ℕ → List ℕ → List ℕ
front zero bytes = []
front (suc n) [] = []
front (suc n) (b ∷ bytes) = b ∷ front n bytes

unfoldable pub rest_after : ℕ → List ℕ → List ℕ
rest_after zero bytes = bytes
rest_after (suc n) [] = []
rest_after (suc n) (b ∷ bytes) = rest_after n bytes

-- how the loop ends
pub data Read (S : Type 0) : Type 0 where
  whole : S → Read S
  failed exhausted : Read S

module _ (md5 : Md5) where
  -- what the loop does with a chunk
  unfoldable pub with_chunk : List ℕ → md5.State → (md5.State → Read md5.State) → Read md5.State
  with_chunk [] h go_on = whole h
  with_chunk (b ∷ bytes) h go_on = go_on (md5.update h (b ∷ bytes))

  -- the loop over the chunks, after so many reads
  unfoldable pub read_chunks : (ℕ → Bool) → ℕ → ℕ → ℕ → List ℕ → md5.State → Read md5.State
  unfolding front rest_after with_chunk
  read_chunks fails size zero reads bytes h = exhausted
  read_chunks fails size (suc fuel) reads bytes h = elim (fails reads) [
    | true ↦ failed
    | false ↦
        with_chunk (front size bytes) h
          (λ h'. read_chunks fails size fuel (reads + 1) (rest_after size bytes) h')
  ]

  unfoldable pub digest_of : Read md5.State → Option String
  digest_of (whole h) = some (md5.hexdigest h)
  digest_of failed = none
  digest_of exhausted = none

  -- `compute_md5(path, max_bytes)`
  unfoldable pub compute_md5 : ReadFile → Option ℕ → Option String
  unfolding read_chunks digest_of
  compute_md5 file max_bytes =
      let limit = some_or max_bytes (default_max_file_size_mb * 1024 * 1024) in
      elim file.size [
        | none ↦ none
        | some size ↦ if ltb limit size then none else elim file.content [
          | none ↦ none
          | some bytes ↦
              digest_of
                (read_chunks file.read_fails chunk_size (suc (length bytes)) 0 bytes md5.start)
        ]
      ]
