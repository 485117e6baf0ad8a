-- ===== src/Drive/Client/Folder/Quoted.antt =====
-- src/drive_client.py: the names in queries. A literal of a query stands between single quotes, where
-- `\'` stands for a quote and `\\` for a backslash.
use Prim.Native.Char.{Char, code}
use Prim.Native.String.{◌++◌ as ◌+text◌}
use text.Mathlib.TextLemmas.{nil-append, cons-append, append_assoc, append-nil}
use text.Mathlib.TextEquality.{Char-path}
use obsidian_sync.Base.{
  String, Bool, true, false, ◌≡◌, refl, sym, ap, ◌∙◌, inl, inr, Option, none, some, if◌then◌else◌,
  Bool-cases, eqb, chars, drop_chars, drop_chars-append, arith,
}
use obsidian_sync.Drive.Folders.{mime_folder}
use obsidian_sync.Drive.Client.Folder.{escape_quotes, folder_query, file_query}

abbrev push : Char → Option (String × String) → Option (String × String)
push c none = none
push c (some (name, rest)) = some (String.◌∷◌ c name, rest)

-- the literal after its first quote, and what stands after its last; true after a backslash
unfoldable pub read_literal : Bool → String → Option (String × String)
read_literal escaped String.[] = none
read_literal true (String.◌∷◌ c s) = push c (read_literal false s)
read_literal false (String.◌∷◌ c s) =
    let plain = push c (read_literal false s) in
    let after = read_literal true s in
    if eqb (code c) 39 then some (String.[], s) else if eqb (code c) 92 then after else plain

unfoldable pub no_backslash : String → Bool
no_backslash String.[] = true
no_backslash (String.◌∷◌ c s) = if eqb (code c) 92 then false else no_backslash s

apostrophe_lem : (c : Char) → eqb (code c) 39 ≡ true → c ≡ "'"
apostrophe_lem c h = Char-path c "'" (ground arith)

-- a name is read back, in front of what the text after it gives
read-escape :
    (name after more rest : String)
    → no_backslash name ≡ true
    → read_literal false after ≡ some (more, rest)
    → read_literal false (escape_quotes name +text after) ≡ some (name +text more, rest)
unfolding read_literal no_backslash escape_quotes
read-escape String.[] after more rest h e =
    ap (read_literal false) (nil-append after)
    ∙ e
    ∙ ap (λ x. some (x, rest)) (sym (nil-append more))
read-escape (String.◌∷◌ c name) after more rest h e = elim (Bool-cases (eqb (code c) 39)) [
  | inl quote ↦
      let plain : no_backslash name ≡ true = ground (arith, h, quote) in
      let ih = read-escape name after more rest plain e in
      rw
        (
          quote,
          cons-append "\\" (String.◌∷◌ "'" (escape_quotes name)) after,
          cons-append "'" (escape_quotes name) after,
          ih,
          cons-append c name more,
          apostrophe_lem c quote,
        )
        refl
  | inr other ↦ elim (Bool-cases (eqb (code c) 92)) [
    | inl backslash ↦ absurd (cc (rw backslash at h))
    | inr letter ↦
        let ih = read-escape name after more rest (rw letter at h) e in
        rw (other, cons-append c (escape_quotes name) after, cons-append c name more)
          (rw (read_literal, other, letter, ih) refl)
  ]
]

-- what follows the name in a query
abbrev pub after_name : String → String → String
after_name parent_id condition =
    " and '"
    +text (parent_id
        +text ("' in parents and mimeType"
            +text (condition +text ("'" +text (mime_folder +text "' and trashed=false")))))

ends_here : (rest : String) → read_literal false ("'" +text rest) ≡ some ("", rest)
unfolding read_literal
ends_here rest = rw (cons-append "'" "" rest, nil-append rest) refl

abbrev pub name_of : String → Option (String × String)
name_of query = read_literal false (drop_chars 6 query)

name_in :
    (name rest : String)
    → no_backslash name ≡ true
    → name_of ("name='" +text (escape_quotes name +text ("' and '" +text rest)))
      ≡ some (name, " and '" +text rest)
unfolding chars
name_in name rest h =
    ap (read_literal false) (
      drop_chars-append "name='" (escape_quotes name +text ("' and '" +text rest))
      ∙ ap (λ z. escape_quotes name +text z) (append_assoc "'" " and '" rest))
    ∙ read-escape name ("'" +text (" and '" +text rest)) "" (" and '" +text rest) h
        (ends_here (" and '" +text rest))
    ∙ ap (λ n. some (n, " and '" +text rest)) (append-nil name)

escape-backslash : (name : String) → escape_quotes (name +text "\\") ≡ escape_quotes name +text "\\"
unfolding escape_quotes
escape-backslash String.[] = refl
escape-backslash (String.◌∷◌ c name) = elim (Bool-cases (eqb (code c) 39)) [
  | inl quote ↦
      rw
        (
          cons-append c name "\\",
          escape_quotes,
          quote,
          cons-append "\\" (String.◌∷◌ "'" (escape_quotes name)) "\\",
          cons-append "'" (escape_quotes name) "\\",
          escape-backslash name,
        )
        refl
  | inr other ↦
      rw
        (
          cons-append c name "\\",
          escape_quotes,
          other,
          cons-append c (escape_quotes name) "\\",
          escape-backslash name,
        )
        refl
]

runs_on :
    (rest : String) → read_literal false ("\\" +text ("' and '" +text rest)) ≡ some ("' and ", rest)
unfolding read_literal
runs_on rest =
    rw
      (
        ← append_assoc "\\" "' and '" rest,
        cons-append "\\" "' and '" rest,
        cons-append "'" " and '" rest,
        cons-append " " "and '" rest,
        cons-append "a" "nd '" rest,
        cons-append "n" "d '" rest,
        cons-append "d" " '" rest,
        cons-append " " "'" rest,
        cons-append "'" "" rest,
        nil-append rest,
      )
      refl

query_backslash :
    (name rest : String)
    → no_backslash name ≡ true
    → name_of ("name='" +text (escape_quotes (name +text "\\") +text ("' and '" +text rest)))
      ≡ some (name +text "' and ", rest)
unfolding chars
query_backslash name rest h =
    ap (read_literal false) (
      drop_chars-append "name='" (escape_quotes (name +text "\\") +text ("' and '" +text rest))
      ∙ ap (λ z. z +text ("' and '" +text rest)) (escape-backslash name)
      ∙ append_assoc (escape_quotes name) "\\" ("' and '" +text rest))
    ∙ read-escape name ("\\" +text ("' and '" +text rest)) "' and " rest h (runs_on rest)

-- the end of a folder's query
abbrev pub folder_end : String → String
folder_end parent_id =
    parent_id
    +text "' in parents and mimeType='application/vnd.google-apps.folder' and trashed=false"

-- A query for a folder, and one for a file, are read with the name that was asked for, if that has no
-- backslash: quotes in it end nothing. With one more backslash at the end of the name, which is not
-- escaped, the folder's query runs on and is read with another name, which ends in `' and `.
pub name_of-query :
    (name parent_id : String)
    → no_backslash name ≡ true
    → (name_of (folder_query name parent_id) ≡ some (name, after_name parent_id "="))
      × (name_of (file_query name parent_id) ≡ some (name, after_name parent_id "!="))
      × (name_of (folder_query (name +text "\\") parent_id)
          ≡ some (name +text "' and ", folder_end parent_id))
unfolding folder_query file_query
name_of-query name parent_id h = (
  name_in name (folder_end parent_id) h,
  name_in name
      (parent_id
        +text "' in parents and mimeType!='application/vnd.google-apps.folder' and trashed=false")
      h,
  query_backslash name (folder_end parent_id) h,
)
