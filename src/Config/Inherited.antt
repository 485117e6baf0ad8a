-- ===== src/Config/Inherited.antt =====
-- src/config.py: what stands below an ignored folder is ignored.
use Prim.Native.Char.{code}
use Prim.Native.String.{◌++◌ as ◌+text◌}
use text.Mathlib.TextLemmas.{nil-append, cons-append}
use obsidian_sync.Base.{
  String, Bool, true, false, not, ◌&&◌, ◌||◌, ◌≡◌, refl, sym, ap, ◌∙◌, inl, inr, List, [], ◌∷◌,
  ◌++◌, eqb, if◌then◌else◌, Bool-cases, ◌==◌, contains, contains-append, has_char, is_slash,
  segments, first_segment, later_segments, last_segment, arith,
}
use obsidian_sync.Config.{
  ignore_patterns, normalized_path, ends_with_slash, strip_last_slashes, any_of, fnmatch, matches,
  should_ignore,
}

slash-append : (t : String) → "/" +text t ≡ String.◌∷◌ "/" t
slash-append t = cons-append "/" "" t ∙ ap (String.◌∷◌ "/") (nil-append t)

first_segment-append : (p q : String) → first_segment (p +text ("/" +text q)) ≡ first_segment p
unfolding first_segment
first_segment-append String.[] q = rw (nil-append ("/" +text q), slash-append q) refl
first_segment-append (String.◌∷◌ c p) q =
    rw (cons-append c p ("/" +text q), first_segment, first_segment-append p q) refl

later_segments-append :
    (p q : String) → later_segments (p +text ("/" +text q)) ≡ later_segments p ++ segments q
unfolding later_segments segments
later_segments-append String.[] q = rw (nil-append ("/" +text q), slash-append q) refl
later_segments-append (String.◌∷◌ c p) q = elim (Bool-cases (is_slash c)) [
  | inl slash ↦
      rw
        (
          cons-append c p ("/" +text q),
          later_segments,
          slash,
          first_segment-append p q,
          later_segments-append p q,
        )
        refl
  | inr other ↦
      rw (cons-append c p ("/" +text q), later_segments, other, later_segments-append p q) refl
]

segments-append : (p q : String) → segments (p +text ("/" +text q)) ≡ segments p ++ segments q
unfolding segments
segments-append p q = rw (first_segment-append p q, later_segments-append p q) refl

normalized_path-append :
    (p t : String) → normalized_path (p +text t) ≡ normalized_path p +text normalized_path t
unfolding normalized_path
normalized_path-append String.[] t = rw (nil-append t, nil-append (normalized_path t)) refl
normalized_path-append (String.◌∷◌ c p) t =
    rw
      (
        cons-append c p t,
        normalized_path,
        normalized_path-append p t,
        cons-append (if eqb (code c) 92 then "/" else c) (normalized_path p) (normalized_path t),
      )
      refl

any_of-append :
    (test : String → Bool) (xs ys : List String)
    → any_of test (xs ++ ys) ≡ any_of test xs || any_of test ys
unfolding any_of
any_of-append test [] ys = refl
any_of-append test (x ∷ xs) ys = ground (arith, any_of-append test xs ys)

-- a pattern for one file matches the path
abbrev pub names_it : String → String → Bool
names_it path pattern =
    not (ends_with_slash pattern)
    && (not (has_char 42 pattern) && (last_segment path == pattern || path == pattern))

module _ (normcase : String → String) where
  matches-folder :
      (path pattern : String)
      → ends_with_slash pattern ≡ true
      → matches normcase path pattern ≡ contains (segments path) (strip_last_slashes pattern)
  unfolding matches
  matches-folder path pattern folder = rw (matches, folder) refl

  matches-glob :
      (path pattern : String)
      → ends_with_slash pattern ≡ false
      → has_char 42 pattern ≡ true
      → matches normcase path pattern
        ≡ any_of (λ part. fnmatch normcase part pattern) (segments path)
  unfolding matches
  matches-glob path pattern other star = rw (matches, other, star) refl

  matches-name :
      (path pattern : String)
      → ends_with_slash pattern ≡ false
      → has_char 42 pattern ≡ false
      → matches normcase path pattern ≡ names_it path pattern
  unfolding matches
  matches-name path pattern other plain = rw (matches, other, plain) refl

  matches-below :
      (p q pattern : String)
      → matches normcase p pattern ≡ true
      → names_it p pattern ≡ false
      → matches normcase (p +text ("/" +text q)) pattern ≡ true
  matches-below p q pattern h unnamed = elim (Bool-cases (ends_with_slash pattern)) [
    | inl folder ↦
        matches-folder (p +text ("/" +text q)) pattern folder
        ∙ ap (λ parts. contains parts (strip_last_slashes pattern)) (segments-append p q)
        ∙ contains-append (segments p) (segments q) (strip_last_slashes pattern)
        ∙ ap (λ b. b || contains (segments q) (strip_last_slashes pattern))
            (sym (matches-folder p pattern folder) ∙ h)
    | inr other ↦ elim (Bool-cases (has_char 42 pattern)) [
      | inl star ↦
          let test : String → Bool = λ part. fnmatch normcase part pattern in
          matches-glob (p +text ("/" +text q)) pattern other star
          ∙ ap (any_of test) (segments-append p q)
          ∙ any_of-append test (segments p) (segments q)
          ∙ ap (λ b. b || any_of test (segments q)) (sym (matches-glob p pattern other star) ∙ h)
      | inr plain ↦ absurd (cc (sym (matches-name p pattern other plain) ∙ h, unnamed))
    ]
  ]

  any-below :
      (p q : String) (patterns : List String)
      → any_of (matches normcase p) patterns ≡ true
      → any_of (names_it p) patterns ≡ false
      → any_of (matches normcase (p +text ("/" +text q))) patterns ≡ true
  unfolding any_of
  any-below p q [] h unnamed = absurd (cc h)
  any-below p q (pattern ∷ patterns) h unnamed = elim (Bool-cases (matches normcase p pattern)) [
    | inl this ↦ rw (any_of, matches-below p q pattern this (ground (arith, unnamed))) refl
    | inr not_this ↦
        let rest = any-below p q patterns (rw not_this at h) (ground (arith, unnamed)) in
        ground (arith, rest)
  ]

  -- What stands below an ignored path is ignored too, unless it is a pattern for a single file, such
  -- as `data.json`, that names the path.
  pub should_ignore-below :
      (p q : String)
      → should_ignore normcase p ≡ true
      → any_of (names_it (normalized_path p)) ignore_patterns ≡ false
      → should_ignore normcase (p +text ("/" +text q)) ≡ true
  unfolding should_ignore
  should_ignore-below p q h unnamed =
      rw (normalized_path-append p ("/" +text q), normalized_path-append "/" q)
        (any-below (normalized_path p) (normalized_path q) ignore_patterns h unnamed)
