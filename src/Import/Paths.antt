-- ===== src/Import/Paths.antt =====
-- `GetFilePaths` on statements that name their files in single quotes.
use go_exasol.Base.{
  ℕ, zero, suc, ◌-◌, ◌≡◌, ◌≢◌, refl, ap, ◌∙◌, false, ◌&&◌, none, some, List, [], ◌∷◌, ◌++◌, map,
  Bytes, lit, length, append_assoc, arith, All,
}
use go_exasol.Text.Ways.{optional-first}
use go_exasol.Import.Files.{IsFileByte, Stops, file_at-clause}
use go_exasol.Import.Query.{Found, file_at, find_files, get_file_paths}
use go_exasol.Result.{ok}
use go_exasol.Text.Words.{is_case_of, NoTriple, word_single, word_two, word_triple}
use go_exasol.Text.Pattern.{word, optional, quote, blank}

-- The letters f, i and l, in any case, do not stand one behind the other.
abbrev pub NoFil : Bytes → Type 0
NoFil = NoTriple b'f' b'i' b'l'

file_at-none : (s : Bytes) → word (lit "file") s ≡ none → file_at s ≡ none
unfolding file_at
file_at-none s h = ground (arith, h)

file_at-one : (c : ℕ) → file_at (c ∷ []) ≡ none
file_at-one c =
    file_at-none (c ∷ [])
      (word_single b'f' b'i' b'l' (lit "e") (omega arith) (omega arith) (omega arith) c)

file_at-two : (c d : ℕ) → file_at (c ∷ d ∷ []) ≡ none
file_at-two c d =
    file_at-none (c ∷ d ∷ [])
      (word_two b'f' b'i' b'l' (lit "e") (omega arith) (omega arith) (omega arith) c d)

file_at-NoFil :
    (c d e : ℕ) (s : Bytes)
    → (is_case_of b'f' c && (is_case_of b'i' d && is_case_of b'l' e)) ≡ false
    → file_at (c ∷ d ∷ e ∷ s) ≡ none
file_at-NoFil c d e s h =
    file_at-none (c ∷ d ∷ e ∷ s)
      (word_triple b'f' b'i' b'l' (lit "e") (omega arith) (omega arith) (omega arith) c d e s h)

find_files_next :
    (c : ℕ) (s : Bytes) → file_at (c ∷ s) ≡ none → find_files zero (c ∷ s) ≡ find_files zero s
unfolding find_files
find_files_next c s h = ground (arith, h)

-- No clause of a file begins before the text behind.
pub find_files-NoFil :
    (pre s : Bytes)
    → NoFil pre
    → find_files zero (pre ++ b'F' ∷ b'I' ∷ s) ≡ find_files zero (b'F' ∷ b'I' ∷ s)
find_files-NoFil [] s h = refl
find_files-NoFil (c ∷ []) s h =
    find_files_next c (b'F' ∷ b'I' ∷ s) (file_at-NoFil c b'F' b'I' s (ground arith))
find_files-NoFil (c ∷ d ∷ []) s h =
    find_files_next c (d ∷ b'F' ∷ b'I' ∷ s) (file_at-NoFil c d b'F' (b'I' ∷ s) (ground arith))
    ∙ find_files-NoFil (d ∷ []) s tt
find_files-NoFil (c ∷ d ∷ e ∷ pre) s h =
    find_files_next c (d ∷ e ∷ (pre ++ b'F' ∷ b'I' ∷ s)) (file_at-NoFil c d e _ h.0)
    ∙ find_files-NoFil (d ∷ e ∷ pre) s h.1

pub find_files_none : (s : Bytes) → NoFil s → find_files zero s ≡ []
find_files_none [] h = unfold find_files in refl
find_files_none (c ∷ []) h = find_files_next c [] (file_at-one c) ∙ (unfold find_files in refl)
find_files_none (c ∷ d ∷ []) h =
    find_files_next c (d ∷ []) (file_at-two c d) ∙ find_files_none (d ∷ []) tt
find_files_none (c ∷ d ∷ e ∷ s) h =
    find_files_next c (d ∷ e ∷ s) (file_at-NoFil c d e s h.0) ∙ find_files_none (d ∷ e ∷ s) h.1

find_files_first :
    (c : ℕ) (s : Bytes) {found : Found}
    → file_at (c ∷ s) ≡ some found
    → find_files zero (c ∷ s) ≡ found ∷ find_files (length found.0 - 1) s
unfolding find_files
find_files_first c s h = ground (arith, h)

find_files_skip : (a s : Bytes) → find_files (length a) (a ++ s) ≡ find_files zero s
unfolding find_files
find_files_skip [] s = refl
find_files_skip (c ∷ a) s = find_files_skip a s

-- A match in front is found, and the search goes on behind it.
find_files_match :
    (c : ℕ) (a s file : Bytes)
    → file_at (c ∷ (a ++ s)) ≡ some (c ∷ a, file)
    → find_files zero (c ∷ (a ++ s)) ≡ (c ∷ a, file) ∷ find_files zero s
unfolding find_files
find_files_match c a s file h =
    let e : suc (length a) - 1 ≡ length a = omega arith in
    ground (arith, h, find_files_skip a s, ap (λ n. find_files n (a ++ s)) e)

abbrev pub IsPath : Bytes → Type 0
IsPath p = (p ≢ []) × All IsFileByte p

abbrev pub clause : Bytes → Bytes
clause p = (lit "FILE '" ++ p) ++ lit "' "

abbrev pub clauses : List Bytes → Bytes
clauses [] = []
clauses (p ∷ ps) = clause p ++ clauses ps

quote-Stops : (rest : Bytes) → Stops (lit "' " ++ rest)
quote-Stops [] = refl
quote-Stops (c ∷ rest) = refl

pub find_files-clause :
    (c : ℕ) (path rest : Bytes)
    → All IsFileByte (c ∷ path)
    → find_files zero (clause (c ∷ path) ++ rest)
      ≡ (clause (c ∷ path), c ∷ path) ∷ find_files zero rest
unfolding optional
find_files-clause c path rest bytes =
    find_files_match b'F' (lit "ILE '" ++ (c ∷ path ++ lit "' ")) rest (c ∷ path) (
      ap (λ t. file_at (lit "FILE '" ++ t)) (append_assoc (c ∷ path) (lit "' ") rest)
      ∙ file_at-clause c path (lit "' " ++ rest) (lit "'", b' ' ∷ rest) (lit " ", rest) bytes
          (quote-Stops rest) refl refl)

-- What is found of a clause.
abbrev pub found_of : Bytes → Found
found_of p = (clause p, p)

pub find_files-clauses :
    (ps : List Bytes) (post : Bytes)
    → All IsPath ps
    → NoFil post
    → find_files zero (clauses ps ++ post) ≡ map found_of ps
find_files-clauses [] post h quiet = find_files_none post quiet
find_files-clauses ([] ∷ ps) post h quiet = absurd (h.0.0 refl)
find_files-clauses ((c ∷ path) ∷ ps) post h quiet =
    ap (find_files zero) (append_assoc (clause (c ∷ path)) (clauses ps) post)
    ∙ find_files-clause c path (clauses ps ++ post) h.0.1
    ∙ ap (λ l. found_of (c ∷ path) ∷ l) (find_files-clauses ps post h.1 quiet)

files-found_of : (ps : List Bytes) → map (λ (f : Found). f.1) (map found_of ps) ≡ ps
files-found_of [] = refl
files-found_of (p ∷ ps) = ap (λ l. p ∷ l) (files-found_of ps)

get_file_paths-found :
    (query p : Bytes) (ps : List Bytes)
    → map (λ (f : Found). f.1) (find_files zero query) ≡ p ∷ ps
    → get_file_paths query ≡ ok (p ∷ ps)
unfolding get_file_paths
get_file_paths-found query p ps h = rw h refl

-- The paths of a statement that names its files by clauses FILE '<path>', in upper case and single
-- quotes, with a blank behind each and one directly behind the other, are read one by one, in their
-- order. The paths are not empty and hold letters, digits and the marks :<>\/._ and blanks alone, and
-- before the first clause and behind the last no f is followed by i and l, in any case.
pub get_file_paths-clauses :
    (pre post p : Bytes) (ps : List Bytes)
    → NoFil pre
    → NoFil post
    → All IsPath (p ∷ ps)
    → get_file_paths (pre ++ (clauses (p ∷ ps) ++ post)) ≡ ok (p ∷ ps)
get_file_paths-clauses pre post p ps before behind h = get_file_paths-found _ p ps (
    ap (map (λ (f : Found). f.1)) (find_files-NoFil pre _ before)
    ∙ ap (map (λ (f : Found). f.1)) (find_files-clauses (p ∷ ps) post h behind)
    ∙ files-found_of (p ∷ ps))

-- The first path of a statement, behind FILE ' and a text in which no f is followed by i and l, is
-- cut before the first character that is none of these: where it is a hyphen, say, the driver opens
-- another file than the one named.
pub get_file_paths_cut :
    (pre rest : Bytes) (c : ℕ) (path : Bytes)
    → NoFil pre
    → All IsFileByte (c ∷ path)
    → Stops rest
    → (others : List Bytes) × (get_file_paths (pre ++ (lit "FILE '" ++ (c ∷ path ++ rest)))
        ≡ ok ((c ∷ path) ∷ others))
get_file_paths_cut pre rest c path before bytes stops =
    let (q, (qs, f)) = optional-first quote rest in
    let (b, (bs, g)) = optional-first blank q.1 in
    let e = file_at-clause c path rest q b bytes stops f g in
    (
      _,
      get_file_paths-found _ (c ∷ path) _
          (ap (map (λ (f : Found). f.1)) (find_files-NoFil pre _ before ∙ find_files_first _ _ e)),
    )
