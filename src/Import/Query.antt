-- ===== src/Import/Query.antt =====
-- The functions of internal/utils/helper.go that read and rewrite an import statement.
use go_exasol.Base.Int.{ℤ}
use go_exasol.Base.{
  ℕ, zero, suc, ◌-◌, Bool, true, false, ◌&&◌, ◌||◌, Option, none, some, List, [], ◌∷◌, ◌++◌, map,
  Bytes, lit, ◌==◌, leb, length, equal, if◌then◌else◌,
}
use go_exasol.Errors.{err_invalid_import_query}
use go_exasol.Result.{Result, ok, err}
use go_exasol.Text.Decimal.{show}
use go_exasol.Text.Pattern.{
  Matched, Width, word, plus, optional, ways, way, first_way, letter_or, space, blank, quote,
}
use go_exasol.Text.{replace_first}

-- Whether the expression `(?i)(FROM LOCAL CSV )` matches somewhere.
unfoldable pub is_import_query : Bytes → Bool
unfolding word
is_import_query [] = false
is_import_query (c ∷ s) = elim (word (lit "from local csv ") (c ∷ s)) [
  | some m ↦ true
  | none ↦ is_import_query s
]

-- A match: its text, and the group that the code asks for.
abbrev pub Found : Type 0
Found = Bytes × Bytes

-- What the class of `File` holds beside letters.
abbrev pub is_path_mark : ℕ → Bool
is_path_mark c =
    (leb b'0' c && leb c b'9')
    || c == b':'
    || c == b'<'
    || c == b'>'
    || c == b' '
    || c == b'\\'
    || c == b'/'
    || c == b'.'
    || c == b'_'

abbrev pub file_char : Width
file_char = letter_or is_path_mark

-- `(?i)(FILE\s+(["|'])?(?P<File>[a-zA-Z0-9:<> \\\/._]+)(["|']? ?))`, at the start of a text: each
-- part behind the text that the parts before it match.
abbrev pub behind_quote : Bytes → Bytes → Matched → List Found
behind_quote front file (r, s) = ways (optional blank s) λ b. (front ++ (r ++ b.0), file) ∷ []

abbrev pub behind_file : Bytes → Matched → List Found
behind_file front (file, s) = ways (optional quote s) (behind_quote (front ++ file) file)

abbrev pub behind_opening : Bytes → Matched → List Found
behind_opening front (q, s) = ways (plus file_char s) (behind_file (front ++ q))

abbrev pub behind_gap : Bytes → Matched → List Found
behind_gap front (gap, s) = ways (optional quote s) (behind_opening (front ++ gap))

abbrev pub behind_word : Matched → List Found
behind_word (w, s) = ways (plus space s) (behind_gap w)

unfoldable pub file_at : Bytes → Option Found
unfolding word plus optional
file_at s = first_way (way (word (lit "file") s) behind_word)

-- `FindAllStringSubmatch(query, -1)`: `skip` bytes of a match are still to pass
unfoldable pub find_files : ℕ → Bytes → List Found
unfolding file_at
find_files skip [] = []
find_files (suc skip) (c ∷ s) = find_files skip s
find_files zero (c ∷ s) = elim (file_at (c ∷ s)) [
  | none ↦ find_files zero s
  | some found ↦ found ∷ find_files (length found.0 - 1) s
]

abbrev some_files : List Bytes → Result (List Bytes)
some_files [] = err err_invalid_import_query
some_files (file ∷ files) = ok (file ∷ files)

-- `GetFilePaths`
unfoldable pub get_file_paths : Bytes → Result (List Bytes)
unfolding find_files
get_file_paths query = some_files (map (λ (found : Found). found.1) (find_files zero query))

-- `(?i)(ROW\s+SEPARATOR\s+=\s+(["|'])?(?P<RowSeparator>[a-zA-Z]+)(["|']?))`, at the start of a text,
-- from its last parts to the first
abbrev pub letters : Width
letters = letter_or (λ c. false)

abbrev pub name_of : Matched → List Bytes
name_of (name, s) = name ∷ []

abbrev pub behind_mark : Matched → List Bytes
behind_mark (q, s) = ways (plus letters s) name_of

abbrev pub before_mark : Matched → List Bytes
before_mark (gap, s) = ways (optional quote s) behind_mark

abbrev pub behind_equals : Matched → List Bytes
behind_equals (e, s) = ways (plus space s) before_mark

abbrev pub before_equals : Matched → List Bytes
before_equals (gap, s) = way (word (lit "=") s) behind_equals

abbrev pub behind_separator : Matched → List Bytes
behind_separator (w, s) = ways (plus space s) before_equals

abbrev pub before_separator : Matched → List Bytes
before_separator (gap, s) = way (word (lit "separator") s) behind_separator

abbrev pub behind_row : Matched → List Bytes
behind_row (w, s) = ways (plus space s) before_separator

unfoldable pub separator_at : Bytes → Option Bytes
unfolding word plus optional
separator_at s = first_way (way (word (lit "row") s) behind_row)

-- `FindStringSubmatch`, where nothing is found the default
unfoldable pub separator_name : Bytes → Bytes
unfolding separator_at
separator_name [] = lit "LF"
separator_name (c ∷ s) = elim (separator_at (c ∷ s)) [ some name ↦ name | none ↦ separator_name s ]

abbrev pub separator_of : Bytes → Bytes
separator_of name =
    if equal name (lit "CR") || equal name (lit "cr")
    then lit "\r"
    else if equal name (lit "CRLF") || equal name (lit "crlf")
    then lit "\r\n"
    else lit "\n"

-- `GetRowSeparator`
unfoldable pub get_row_separator : Bytes → Bytes
unfolding separator_name
get_row_separator query = separator_of (separator_name query)

-- The loop of `UpdateImportQuery`: the first clause of a file becomes `text`, the others go.
unfoldable pub replace_files : Bytes → List Found → Bytes → Bytes
replace_files text [] query = query
replace_files text (found ∷ later) query = replace_files [] later (replace_first query found.0 text)

-- What `ReplaceAll` puts for a match is the expansion of a template; `expand template` is it.
module _ (expand : Bytes → Bytes → Bytes) where
  -- `ReplaceAll` of `(?i)(LOCAL CSV)`: `skip` bytes of a match are still to pass
  unfoldable pub replace_local : ℕ → Bytes → Bytes → Bytes
  unfolding word
  replace_local skip template [] = []
  replace_local (suc skip) template (c ∷ s) = replace_local skip template s
  replace_local zero template (c ∷ s) = elim (word (lit "local csv") (c ∷ s)) [
    | some (a, rest) ↦ expand template a ++ replace_local (length a - 1) template s
    | none ↦ c ∷ replace_local zero template s
  ]

  -- `UpdateImportQuery`
  unfoldable pub update_import_query : Bytes → Bytes → ℤ → Bytes
  unfolding find_files replace_files replace_local
  update_import_query query host port =
      let proxy_url = lit "http://" ++ (host ++ b':' ∷ show port) in
      let template = lit "CSV AT '" ++ (proxy_url ++ lit "'") in
      replace_local zero template
        (replace_files (lit "FILE 'data.csv' ") (find_files zero query) query)
