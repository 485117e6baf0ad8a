-- ===== src/Config/Tests.antt =====
-- Paths that are ignored, and one that is not.
use obsidian_sync.Base.{
  String, true, false, ◌≡◌, refl, [], ◌∷◌, map, truthy_text, has_char, last_segment,
}
use Prim.Native.String.{◌++◌ as ◌+text◌}
use obsidian_sync.Config.{ignore_patterns, normalized_path, ends_with_slash, any_of, should_ignore}
use obsidian_sync.Config.Inherited.{names_it, should_ignore-below}

abbrev posix : String → String
posix path = path

ignored :
    map
      (should_ignore posix)
      (".obsidian/app" ∷ "a/.git/x" ∷ "n/a.b.tmp" ∷ "x/data.json" ∷ "a.md" ∷ "data.json/a.md" ∷ [])
    ≡ true ∷ true ∷ true ∷ true ∷ false ∷ false ∷ []
unfolding should_ignore truthy_text
ignored = refl

trash_ignored : should_ignore posix ".trash" ≡ true
unfolding should_ignore truthy_text
trash_ignored = refl

trash_unnamed : any_of (names_it (normalized_path ".trash")) ignore_patterns ≡ false
unfolding any_of normalized_path ends_with_slash has_char last_segment truthy_text
trash_unnamed = refl

should_ignore-below_example : should_ignore posix (".trash" +text ("/" +text "a.md")) ≡ true
should_ignore-below_example = should_ignore-below posix ".trash" "a.md" trash_ignored trash_unnamed
