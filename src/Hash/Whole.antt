-- ===== src/Hash/Whole.antt =====
-- src/hash.py: the digest by chunks is that of the whole file.
use obsidian_sync.Base.{
  ℕ, zero, suc, ◌+◌, ◌≤◌, ◌<◌, Bool, false, ◌≡◌, refl, sym, ap, ◌∙◌, Option, none, some, List, [],
  ◌∷◌, ◌++◌, ltb, if◌then◌else◌, some_or, length, arith,
}
use obsidian_sync.Hash.{
  Md5, ReadFile, front, rest_after, whole, read_chunks, digest_of, compute_md5,
}

front-rest : (n : ℕ) (bytes : List ℕ) → front n bytes ++ rest_after n bytes ≡ bytes
unfolding front rest_after
front-rest zero bytes = refl
front-rest (suc n) [] = refl
front-rest (suc n) (b ∷ bytes) = ap (λ bs. b ∷ bs) (front-rest n bytes)

module _ (md5 : Md5) where
  -- As the documentation has it: `m.update(a); m.update(b)` is `m.update(a + b)`; and an update with no
  -- bytes changes nothing.
  pub record IsDigest : Type 0 where
    pub update-append :
        (h : md5.State) (a b : List ℕ) → md5.update (md5.update h a) b ≡ md5.update h (a ++ b)
    pub update-nil : (h : md5.State) → md5.update h [] ≡ h

  rest-shorter : (n : ℕ) (b : ℕ) (bytes : List ℕ) → length (rest_after n bytes) ≤ length bytes
  unfolding rest_after
  rest-shorter zero b bytes = omega arith
  rest-shorter (suc n) b [] = omega arith
  rest-shorter (suc n) b (c ∷ bytes) = omega (arith, rest-shorter n b bytes)

  read_chunks-whole :
      (fails : ℕ → Bool) (n fuel reads : ℕ) (bytes : List ℕ) (h : md5.State)
      → IsDigest
      → ((read : ℕ) → fails read ≡ false)
      → length bytes < fuel
      → read_chunks md5 fails (suc n) fuel reads bytes h ≡ whole (md5.update h bytes)
  unfolding read_chunks
  read_chunks-whole fails n zero reads bytes h law fine enough = absurd (omega arith)
  read_chunks-whole fails n (suc fuel) reads [] h law fine enough =
      rw (read_chunks, fine reads) (ap whole (sym (law.update-nil h)))
  read_chunks-whole fails n (suc fuel) reads (b ∷ bytes) h law fine enough =
      rw (read_chunks, fine reads)
        (read_chunks-whole fails n fuel (reads + 1) (rest_after n bytes)
            (md5.update h (b ∷ front n bytes)) law fine (omega (arith, rest-shorter n b bytes))
          ∙ ap whole (
              law.update-append h (b ∷ front n bytes) (rest_after n bytes)
              ∙ ap (λ bs. md5.update h (b ∷ bs)) (front-rest n bytes)))

  -- The digest of a file that can be read, and is no larger than the limit, is that of all its bytes
  -- at once; and there is none of a larger file. The limit is 100 MB if none is given.
  pub compute_md5-whole :
      (file : ReadFile) (max_bytes : Option ℕ) (size : ℕ) (bytes : List ℕ)
      → IsDigest
      → file.size ≡ some size
      → file.content ≡ some bytes
      → ((read : ℕ) → file.read_fails read ≡ false)
      → compute_md5 md5 file max_bytes ≡ (
          if ltb (some_or max_bytes 104857600) size
          then none
          else some (md5.hexdigest (md5.update md5.start bytes)))
  unfolding compute_md5 digest_of
  compute_md5-whole file max_bytes size bytes law sized opened fine =
      rw
        (
          compute_md5,
          sized,
          opened,
          read_chunks-whole file.read_fails 8191 (suc (length bytes)) 0 bytes md5.start law fine
              (omega arith),
        )
        refl
