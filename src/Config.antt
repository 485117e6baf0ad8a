-- ===== src/Config.antt =====
-- src/config.py: `should_ignore`. `normcase` is `os.path.normcase`, which `fnmatch` applies to both of
-- its arguments. The patterns with a star hold neither `?` nor `[`.
pub mod Inherited
mod Tests
use Prim.Native.Char.{Char, code}
use Prim.Native.String.{◌++◌ as ◌+text◌}
use obsidian_sync.Base.{
  String, Bool, true, false, not, ◌&&◌, ◌||◌, List, [], ◌∷◌, eqb, if◌then◌else◌, ◌==◌, contains,
  has_char, is_slash, segments, last_segment, truthy_text,
}

abbrev pub ignore_patterns : List String
ignore_patterns =
    ".obsidian/" ∷ ".sync/" ∷ ".trash/" ∷ ".smart-env/" ∷ ".smart-connections/" ∷ ".makemd/"
    ∷ ".git/" ∷ "undefined/" ∷ ".DS_Store" ∷ "Thumbs.db" ∷ "*.ajson" ∷ "*.smtcmp_*" ∷ ".smtcmp_*"
    ∷ "*.tmp" ∷ "*.swp" ∷ "app.json" ∷ "appearance.json" ∷ "community-plugins.json"
    ∷ "core-plugins.json" ∷ "workspace.json" ∷ "data.json" ∷ "types.json" ∷ "smart_env.json"
    ∷ "supercharged-links-gen.css" ∷ []

-- `rel_path.replace("\\", "/")`
unfoldable pub normalized_path : String → String
normalized_path String.[] = String.[]
normalized_path (String.◌∷◌ c s) =
    String.◌∷◌ (if eqb (code c) 92 then "/" else c) (normalized_path s)

-- `pattern.endswith("/")`
unfoldable pub ends_with_slash : String → Bool
ends_with_slash String.[] = false
ends_with_slash (String.◌∷◌ c s) = if truthy_text s then ends_with_slash s else is_slash c

-- `pattern.rstrip("/")`
unfoldable pub strip_last_slashes : String → String
strip_last_slashes String.[] = String.[]
strip_last_slashes (String.◌∷◌ c s) =
    let rest = strip_last_slashes s in
    if is_slash c && not (truthy_text rest) then String.[] else String.◌∷◌ c rest

unfoldable pub any_suffix : (String → Bool) → String → Bool
any_suffix test String.[] = test String.[]
any_suffix test (String.◌∷◌ c s) = test (String.◌∷◌ c s) || any_suffix test s

unfoldable pub after_char : Char → (String → Bool) → String → Bool
after_char c rest String.[] = false
after_char c rest (String.◌∷◌ d s) = eqb (code c) (code d) && rest s

-- `fnmatch.fnmatchcase(text, pattern)`, where the pattern's one special character is the star
unfoldable pub glob : String → String → Bool
unfolding any_suffix after_char
glob String.[] text = not (truthy_text text)
glob (String.◌∷◌ c pattern) text =
    if eqb (code c) 42 then any_suffix (glob pattern) text else after_char c (glob pattern) text

unfoldable pub any_of : (String → Bool) → List String → Bool
any_of test [] = false
any_of test (x ∷ xs) = test x || any_of test xs

module _ (normcase : String → String) where
  unfoldable pub fnmatch : String → String → Bool
  unfolding glob
  fnmatch part pattern = glob (normcase pattern) (normcase part)

  -- the body of the loop over the patterns
  unfoldable pub matches : String → String → Bool
  unfolding ends_with_slash strip_last_slashes contains segments has_char any_of fnmatch
      last_segment
  matches path pattern =
      if ends_with_slash pattern
      then contains (segments path) (strip_last_slashes pattern)
      else if has_char 42 pattern
      then any_of (λ part. fnmatch part pattern) (segments path)
      else last_segment path == pattern || path == pattern

  unfoldable pub should_ignore : String → Bool
  unfolding normalized_path matches any_of
  should_ignore rel_path = any_of (matches (normalized_path rel_path)) ignore_patterns
