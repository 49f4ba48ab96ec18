-- ===== src/Import/Replace.antt =====
-- `strings.Replace` of the clauses of files in an import statement.
use go_exasol.Base.{
  List, map, subst, Bool-cases, inl, inr, ℕ, ◌≡◌, refl, ap, ◌∙◌, true, false, ◌&&◌, [], ◌∷◌, ◌++◌,
  Bytes, lit, length, append_assoc, arith, All,
}
use go_exasol.Import.Files.{IsFileByte}
use go_exasol.Import.Paths.{IsPath, clauses, found_of, NoFil, clause}
use go_exasol.Import.Query.{replace_files}
use go_exasol.Text.Words.{is_case_of}
use go_exasol.Text.{has_prefix, replace_first, drop_bytes}

has_prefix-NoFil :
    (c d e : ℕ) (s old : Bytes)
    → (is_case_of b'f' c && (is_case_of b'i' d && is_case_of b'l' e)) ≡ false
    → has_prefix (c ∷ d ∷ e ∷ s) (b'F' ∷ b'I' ∷ b'L' ∷ old) ≡ false
unfolding has_prefix
has_prefix-NoFil c d e s old h = ground arith

replace_first_next :
    (c : ℕ) (s old new : Bytes)
    → has_prefix (c ∷ s) old ≡ false
    → replace_first (c ∷ s) old new ≡ c ∷ replace_first s old new
unfolding replace_first
replace_first_next c s old new h = ground (arith, h)

pub replace_first-NoFil :
    (pre s old new : Bytes)
    → NoFil pre
    → replace_first (pre ++ b'F' ∷ b'I' ∷ s) (b'F' ∷ b'I' ∷ b'L' ∷ old) new
      ≡ pre ++ replace_first (b'F' ∷ b'I' ∷ s) (b'F' ∷ b'I' ∷ b'L' ∷ old) new
replace_first-NoFil [] s old new h = refl
replace_first-NoFil (c ∷ []) s old new h =
    replace_first_next c (b'F' ∷ b'I' ∷ s) _ new (has_prefix-NoFil c b'F' b'I' s old (ground arith))
replace_first-NoFil (c ∷ d ∷ []) s old new h =
    replace_first_next c (d ∷ b'F' ∷ b'I' ∷ s) _ new
      (has_prefix-NoFil c d b'F' (b'I' ∷ s) old (ground arith))
    ∙ ap (λ t. c ∷ t) (replace_first-NoFil (d ∷ []) s old new tt)
replace_first-NoFil (c ∷ d ∷ e ∷ pre) s old new h =
    replace_first_next c (d ∷ e ∷ (pre ++ b'F' ∷ b'I' ∷ s)) _ new (has_prefix-NoFil c d e _ old h.0)
    ∙ ap (λ t. c ∷ t) (replace_first-NoFil (d ∷ e ∷ pre) s old new h.1)

has_prefix-append : (old s : Bytes) → has_prefix (old ++ s) old ≡ true
unfolding has_prefix
has_prefix-append [] s = refl
has_prefix-append (c ∷ old) s = ground (arith, has_prefix-append old s)

drop_bytes-append : (old s : Bytes) → drop_bytes (length old) (old ++ s) ≡ s
drop_bytes-append [] s = refl
drop_bytes-append (c ∷ old) s = drop_bytes-append old s

pub replace_first-append :
    (c : ℕ) (old s new : Bytes) → replace_first (c ∷ (old ++ s)) (c ∷ old) new ≡ new ++ s
unfolding replace_first
replace_first-append c old s new =
    ground (arith, has_prefix-append (c ∷ old) s, drop_bytes-append (c ∷ old) s)

-- Two texts that hold no quote, where one behind a quote begins with the other behind a quote.
quoted_prefix :
    (a q s : Bytes)
    → All IsFileByte a
    → All IsFileByte q
    → has_prefix (a ++ (lit "' " ++ s)) (q ++ lit "' ") ≡ true
    → a ≡ q
unfolding has_prefix
quoted_prefix [] [] s ha hq e = refl
quoted_prefix [] (d ∷ q) s ha hq e = absurd (ground arith)
quoted_prefix (c ∷ a) [] s ha hq e = absurd (ground arith)
quoted_prefix (c ∷ a) (d ∷ q) s ha hq e = ground (arith, quoted_prefix a q s ha.1 hq.1)

-- The name under which the proxy serves the files, and its clause.
abbrev data_name : Bytes
data_name = lit "data.csv"

data_name-IsFile : All IsFileByte data_name
data_name-IsFile = ground arith

abbrev pub data_file : Bytes
data_file = lit "FILE 'data.csv' "

-- A clause behind that of the proxy goes, whether its file has the same name or another.
drop_clause :
    (q s : Bytes)
    → All IsFileByte q
    → replace_first (data_file ++ (clause q ++ s)) (clause q) [] ≡ data_file ++ s
drop_clause q s hq = elim (Bool-cases (has_prefix (data_file ++ (clause q ++ s)) (clause q))) [
  | inl e ↦
      subst (λ t. replace_first (data_file ++ (clause t ++ s)) (clause t) [] ≡ data_file ++ s)
        (quoted_prefix data_name q (clause q ++ s) data_name-IsFile hq (unfold has_prefix in e))
        (replace_first-append b'F' (lit "ILE 'data.csv' ") (data_file ++ s) [])
  | inr e ↦
      let old = lit "E '" ++ (q ++ lit "' ") in
      replace_first_next b'F' (lit "ILE 'data.csv' " ++ (clause q ++ s)) (clause q) [] e
      ∙ ap (λ t. b'F' ∷ t)
          (replace_first-NoFil (lit "ILE 'data.csv' ") (b'L' ∷ (old ++ s)) old [] (ground arith))
      ∙ ap (λ t. data_file ++ t) (replace_first-append b'F' (lit "IL" ++ old) s [])
]

-- All clauses go that stand behind that of the proxy.
replace_files-rest :
    (pre post : Bytes) (ps : List Bytes)
    → NoFil pre
    → All IsPath ps
    → replace_files [] (map found_of ps) (pre ++ (data_file ++ (clauses ps ++ post)))
      ≡ pre ++ (data_file ++ post)
unfolding replace_files
replace_files-rest pre post [] before h = refl
replace_files-rest pre post (q ∷ qs) before h =
    let rest = clauses qs ++ post in
    let old = lit "E '" ++ (q ++ lit "' ") in
    ap (replace_files [] (map found_of qs)) (
      ap (λ t. replace_first (pre ++ (data_file ++ t)) (clause q) [])
        (append_assoc (clause q) (clauses qs) post)
      ∙ replace_first-NoFil pre (lit "LE 'data.csv' " ++ (clause q ++ rest)) old [] before
      ∙ ap (λ t. pre ++ t) (drop_clause q rest h.0.1))
    ∙ replace_files-rest pre post qs before h.1

-- The clauses of files become the one of the proxy.
pub replace_files-clauses :
    (pre post p : Bytes) (ps : List Bytes)
    → NoFil pre
    → All IsPath ps
    → replace_files data_file (map found_of (p ∷ ps)) (pre ++ (clauses (p ∷ ps) ++ post))
      ≡ pre ++ (data_file ++ post)
unfolding replace_files
replace_files-clauses pre post p ps before h =
    let rest = clauses ps ++ post in
    let old = lit "E '" ++ (p ++ lit "' ") in
    ap (replace_files [] (map found_of ps)) (
      ap (λ t. replace_first (pre ++ t) (clause p) data_file)
        (append_assoc (clause p) (clauses ps) post)
      ∙ replace_first-NoFil pre (lit "LE '" ++ ((p ++ lit "' ") ++ rest)) old data_file before
      ∙ ap (λ t. pre ++ t) (replace_first-append b'F' (lit "IL" ++ old) rest data_file))
    ∙ replace_files-rest pre post ps before h
