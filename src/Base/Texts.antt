-- ===== src/Base/Texts.antt =====
-- Python's `str`: order by code points, and slices that count characters.
use Prim.Native.Nat.{ℕ, zero, suc, Ordering}
use Prim.Native.String.{String, compare}
use mathlib.Core.Bool.{Bool, true, false}
use mathlib.Core.List.{List, [], ◌∷◌}
use obsidian_sync.Base.Tests.{if◌then◌else◌}

-- `s < t`
abbrev pub lt_text : String → String → Bool
lt_text s t = elim (compare s t) [ Ordering.lt ↦ true | _ ↦ false ]

-- `s[:n]`
unfoldable pub first_chars : ℕ → String → String
first_chars zero s = String.[]
first_chars (suc n) String.[] = String.[]
first_chars (suc n) (String.◌∷◌ c s) = String.◌∷◌ c (first_chars n s)

-- `s[n:]`
unfoldable pub drop_chars : ℕ → String → String
drop_chars zero s = s
drop_chars (suc n) String.[] = String.[]
drop_chars (suc n) (String.◌∷◌ c s) = drop_chars n s

unfoldable pub insert_text : String → List String → List String
insert_text s [] = s ∷ []
insert_text s (t ∷ ts) = if lt_text t s then t ∷ insert_text s ts else s ∷ t ∷ ts

-- `sorted(xs)`
unfoldable pub sort_texts : List String → List String
unfolding insert_text
sort_texts [] = []
sort_texts (s ∷ ss) = insert_text s (sort_texts ss)

-- `max(s, t)`
unfoldable pub max_text : String → String → String
max_text s t = if lt_text s t then t else s

-- `bool(s)`
unfoldable pub truthy_text : String → Bool
truthy_text String.[] = false
truthy_text (String.◌∷◌ c s) = true
