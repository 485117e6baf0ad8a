-- ===== src/Base/Segments.antt =====
-- Python's `str` methods on paths and literals: `split("/")`, `rsplit("/", 1)`, `lstrip("/")` and
-- `replace("'", "\\'")`.
use Prim.Native.Nat.{ℕ, suc}
use Prim.Native.Char.{Char, code}
use Prim.Native.String.{String, ◌++◌}
use mathlib.Core.Path.{◌≡◌, refl, sym, ap, ◌∙◌}
use mathlib.Core.Logic.{inl, inr}
use mathlib.Core.Bool.{Bool, true, false}
use mathlib.Core.Option.{Option, none, some}
use mathlib.Core.List.{List, [], ◌∷◌}
use native.Mathlib.Omega.{arith}
use text.Mathlib.TextLemmas.{nil-append, cons-append, append_assoc, append-nil}
use text.Mathlib.TextEquality.{Char-path}
use obsidian_sync.Base.Texts.{drop_chars}
use obsidian_sync.Base.Tests.{if◌then◌else◌, eqb, Bool-cases}

-- the number of characters
unfoldable pub chars : String → ℕ
chars String.[] = 0
chars (String.◌∷◌ c s) = suc (chars s)

pub drop_chars-append : (s t : String) → drop_chars (chars s) (s ++ t) ≡ t
unfolding drop_chars chars
drop_chars-append String.[] t = nil-append t
drop_chars-append (String.◌∷◌ c s) t = rw (cons-append c s t, drop_chars) (drop_chars-append s t)

abbrev pub is_slash : Char → Bool
is_slash c = eqb (code c) b'/'

-- `s.split("/")`: the first part, and the others
unfoldable pub first_segment : String → String
first_segment String.[] = String.[]
first_segment (String.◌∷◌ c s) = if is_slash c then String.[] else String.◌∷◌ c (first_segment s)

unfoldable pub later_segments : String → List String
unfolding first_segment
later_segments String.[] = []
later_segments (String.◌∷◌ c s) =
    let rest = later_segments s in if is_slash c then first_segment s ∷ rest else rest

unfoldable pub segments : String → List String
unfolding later_segments
segments s = first_segment s ∷ later_segments s

-- `s.rsplit("/", 1)`, if there is a slash
unfoldable pub split_last : String → Option (String × String)
split_last String.[] = none
split_last (String.◌∷◌ c s) = elim (split_last s) [
  | some (parent, name) ↦ some (String.◌∷◌ c parent, name)
  | none ↦ if is_slash c then some (String.[], s) else none
]

-- `s.rsplit("/", 1)[-1]`
unfoldable pub last_segment : String → String
unfolding split_last
last_segment s = elim (split_last s) [ some split ↦ split.1 | none ↦ s ]

-- whether the text has a character
unfoldable pub has_char : ℕ → String → Bool
has_char code_point String.[] = false
has_char code_point (String.◌∷◌ c s) =
    if eqb (code c) code_point then true else has_char code_point s

-- `s.lstrip("/")`
unfoldable pub strip_slashes : String → String
strip_slashes String.[] = String.[]
strip_slashes (String.◌∷◌ c s) =
    let rest = strip_slashes s in if is_slash c then rest else String.◌∷◌ c s

-- `s.startswith("/")`
unfoldable pub starts_with_slash : String → Bool
starts_with_slash String.[] = false
starts_with_slash (String.◌∷◌ c s) = is_slash c

-- The path that the parts after `built` make, joined one by one as `f"{built}/{part}".lstrip("/")`.
unfoldable pub join_segments : String → List String → String
unfolding strip_slashes
join_segments built [] = built
join_segments built (part ∷ parts) = join_segments (strip_slashes (built ++ "/" ++ part)) parts

strip_slashes-append :
    (s t : String) → strip_slashes (strip_slashes s ++ t) ≡ strip_slashes (s ++ t)
unfolding strip_slashes
strip_slashes-append String.[] t = refl
strip_slashes-append (String.◌∷◌ c s) t = elim (Bool-cases (is_slash c)) [
  | inl slash ↦ rw (cons-append c s t, strip_slashes, slash) (strip_slashes-append s t)
  | inr other ↦ rw (strip_slashes, other, cons-append c s t)
]

-- a path that does not start with a slash is left alone
pub strip_slashes-relative : (s : String) → starts_with_slash s ≡ false → strip_slashes s ≡ s
unfolding strip_slashes starts_with_slash
strip_slashes-relative String.[] h = refl
strip_slashes-relative (String.◌∷◌ c s) h = rw h

slash_lem : (c : Char) → is_slash c ≡ true → c ≡ "/"
slash_lem c h = Char-path c "/" (ground arith)

slash-append : (s : String) → "/" ++ s ≡ String.◌∷◌ "/" s
slash-append s = cons-append "/" "" s ∙ ap (String.◌∷◌ "/") (nil-append s)

one_more :
    (x t : String)
    → strip_slashes (strip_slashes (x ++ "") ++ ("/" ++ t)) ≡ strip_slashes ((x ++ "/") ++ t)
one_more x t =
    rw (strip_slashes-append (x ++ "") ("/" ++ t), append-nil x) (rw (← append_assoc x "/" t) refl)

join-later :
    (x s : String)
    → join_segments (strip_slashes (x ++ first_segment s)) (later_segments s)
      ≡ strip_slashes (x ++ s)
unfolding later_segments join_segments
join-later x String.[] = refl
join-later x (String.◌∷◌ c s) = elim (Bool-cases (is_slash c)) [
  | inl slash ↦ rw slash (
      ap (λ z. join_segments z (later_segments s)) (one_more x (first_segment s))
      ∙ join-later (x ++ "/") s
      ∙ ap strip_slashes (
          append_assoc x "/" s
          ∙ ap (λ z. x ++ z) (slash-append s)
          ∙ ap (λ d. x ++ String.◌∷◌ d s) (sym (slash_lem c slash))))
  | inr other ↦
      let d : String = String.◌∷◌ c String.[] in
      rw other (
        ap (λ z. join_segments (strip_slashes z) (later_segments s))
          (sym (
            append_assoc x d (first_segment s)
            ∙ ap (λ z. x ++ z)
                (cons-append c "" (first_segment s)
                  ∙ ap (String.◌∷◌ c) (nil-append (first_segment s)))))
        ∙ join-later (x ++ d) s
        ∙ ap strip_slashes (
            append_assoc x d s
            ∙ ap (λ z. x ++ z) (cons-append c "" s ∙ ap (String.◌∷◌ c) (nil-append s))))
]

-- a path that does not start with a slash is the join of its segments
pub join-segments : (s : String) → starts_with_slash s ≡ false → join_segments "" (segments s) ≡ s
unfolding segments join_segments strip_slashes
join-segments s relative =
    ap (λ z. join_segments (strip_slashes z) (later_segments s))
      (nil-append ("/" ++ first_segment s))
    ∙ join-later "/" s
    ∙ ap strip_slashes (slash-append s)
    ∙ strip_slashes-relative s relative
