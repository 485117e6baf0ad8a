-- ===== src/Hash/Tests.antt =====
-- A digest that counts bytes, of a file of three.
use obsidian_sync.Base.{
  ℕ, false, ◌≡◌, refl, none, some, List, [], ◌∷◌, ◌++◌, append_assoc, append-nil, length,
  if◌then◌else◌, ltb, some_or, text_of_int, pos,
}
use obsidian_sync.Hash.{Md5, ReadFile, compute_md5}
use obsidian_sync.Hash.Whole.{IsDigest, compute_md5-whole}

abbrev counting : Md5
counting = record {
  State = List ℕ;
  start = [];
  update = λ h bytes. h ++ bytes;
  hexdigest = λ h. text_of_int (pos (length h));
}

counting-IsDigest : IsDigest counting
counting-IsDigest = record {
  update-append = λ h a b. append_assoc h a b;
  update-nil = λ h. append-nil h;
}

abbrev file : ReadFile
file = record { size = some 3; content = some (1 ∷ 2 ∷ 3 ∷ []); read_fails = λ read. false }

digest : compute_md5 counting file none ≡ some "3"
unfolding compute_md5 text_of_int
digest = refl

too_large : compute_md5 counting file (some 2) ≡ none
unfolding compute_md5
too_large = refl

compute_md5-whole_example : compute_md5 counting file none ≡ (
    if ltb (some_or none 104857600) 3
    then none
    else some (text_of_int (pos (length {A = ℕ} (1 ∷ 2 ∷ 3 ∷ [])))))
compute_md5-whole_example =
    compute_md5-whole counting file none 3 (1 ∷ 2 ∷ 3 ∷ []) counting-IsDigest refl refl
      (λ read. refl)
