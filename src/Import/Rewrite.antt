-- ===== src/Import/Rewrite.antt =====
-- `UpdateImportQuery` on a statement that names files in single quotes.
use go_exasol.Base.Int.{ℤ}
use go_exasol.Base.{
  List, ℕ, zero, ◌≡◌, refl, ap, ◌∙◌, false, ◌&&◌, none, [], ◌∷◌, ◌++◌, Bytes, lit, append_assoc,
  arith, All,
}
use go_exasol.Import.Replace.{data_file, replace_files-clauses}
use go_exasol.Import.Paths.{IsPath, clauses, find_files-clauses, NoFil, find_files-NoFil}
use go_exasol.Import.Query.{replace_files, replace_local, update_import_query}
use go_exasol.Text.Decimal.{show}
use go_exasol.Text.Pattern.{word}
use go_exasol.Text.Words.{is_case_of, NoTriple, word_single, word_two, word_triple}

-- The letters l, o and c, in any case, do not stand one behind the other.
abbrev pub NoLoc : Bytes → Type 0
NoLoc = NoTriple b'l' b'o' b'c'

word_local_one : (c : ℕ) → word (lit "local csv") (c ∷ []) ≡ none
word_local_one = word_single b'l' b'o' b'c' (lit "al csv") (omega arith) (omega arith) (omega arith)

word_local_two : (c d : ℕ) → word (lit "local csv") (c ∷ d ∷ []) ≡ none
word_local_two = word_two b'l' b'o' b'c' (lit "al csv") (omega arith) (omega arith) (omega arith)

word_local-NoLoc :
    (c d e : ℕ) (s : Bytes)
    → (is_case_of b'l' c && (is_case_of b'o' d && is_case_of b'c' e)) ≡ false
    → word (lit "local csv") (c ∷ d ∷ e ∷ s) ≡ none
word_local-NoLoc =
    word_triple b'l' b'o' b'c' (lit "al csv") (omega arith) (omega arith) (omega arith)

module _ (expand : Bytes → Bytes → Bytes) (template : Bytes) where
  replace_local_next :
      (c : ℕ) (s : Bytes)
      → word (lit "local csv") (c ∷ s) ≡ none
      → replace_local expand zero template (c ∷ s) ≡ c ∷ replace_local expand zero template s
  unfolding replace_local
  replace_local_next c s h = ground (arith, h)

  replace_local_none : (s : Bytes) → NoLoc s → replace_local expand zero template s ≡ s
  replace_local_none [] h = unfold replace_local in refl
  replace_local_none (c ∷ []) h =
      replace_local_next c [] (word_local_one c) ∙ (unfold replace_local in refl)
  replace_local_none (c ∷ d ∷ []) h =
      replace_local_next c (d ∷ []) (word_local_two c d)
      ∙ ap (λ t. c ∷ t) (replace_local_none (d ∷ []) tt)
  replace_local_none (c ∷ d ∷ e ∷ s) h =
      replace_local_next c (d ∷ e ∷ s) (word_local-NoLoc c d e s h.0)
      ∙ ap (λ t. c ∷ t) (replace_local_none (d ∷ e ∷ s) h.1)

  replace_local_before :
      (pre s : Bytes)
      → NoLoc pre
      → replace_local expand zero template (pre ++ b'L' ∷ b'O' ∷ s)
        ≡ pre ++ replace_local expand zero template (b'L' ∷ b'O' ∷ s)
  replace_local_before [] s h = refl
  replace_local_before (c ∷ []) s h =
      replace_local_next c (b'L' ∷ b'O' ∷ s) (word_local-NoLoc c b'L' b'O' s (ground arith))
  replace_local_before (c ∷ d ∷ []) s h =
      replace_local_next c (d ∷ b'L' ∷ b'O' ∷ s)
        (word_local-NoLoc c d b'L' (b'O' ∷ s) (ground arith))
      ∙ ap (λ t. c ∷ t) (replace_local_before (d ∷ []) s tt)
  replace_local_before (c ∷ d ∷ e ∷ pre) s h =
      replace_local_next c (d ∷ e ∷ (pre ++ b'L' ∷ b'O' ∷ s)) (word_local-NoLoc c d e _ h.0)
      ∙ ap (λ t. c ∷ t) (replace_local_before (d ∷ e ∷ pre) s h.1)

  replace_local_match :
      (s : Bytes)
      → replace_local expand zero template (lit "LOCAL CSV" ++ s)
        ≡ expand template (lit "LOCAL CSV") ++ replace_local expand zero template s
  unfolding replace_local word
  replace_local_match s = refl

abbrev pub template_of : Bytes → ℤ → Bytes
template_of host port = lit "CSV AT 'http://" ++ ((host ++ b':' ∷ show port) ++ lit "'")

-- A statement in which LOCAL CSV stands once, in upper case, and behind it clauses FILE '<path>', in
-- upper case and single quotes, with a blank behind each and one directly behind the other: the
-- former is replaced by the address of the proxy and the clauses by the one of the name under which
-- it serves all files; all else stays. The paths are not empty and hold letters, digits and the marks
-- :<>\/._ and blanks alone; in the rest of the statement no f is followed by i and l; before and
-- behind LOCAL CSV, in what the statement becomes, no l is followed by o and c, in any case; and the
-- address holds no template for `regexp`, so that `expand` leaves it as it is.
pub update_import_query-clauses :
    (expand : Bytes → Bytes → Bytes) (a b p post host : Bytes) (ps : List Bytes) (port : ℤ)
    → All IsPath (p ∷ ps)
    → NoFil (a ++ (lit "LOCAL CSV" ++ b))
    → NoFil post
    → NoLoc a
    → NoLoc (b ++ (data_file ++ post))
    → ((whole : Bytes) → expand (template_of host port) whole ≡ template_of host port)
    → update_import_query expand
        ((a ++ (lit "LOCAL CSV" ++ b)) ++ (clauses (p ∷ ps) ++ post))
        host
        port
      ≡ a ++ (template_of host port ++ (b ++ (data_file ++ post)))
unfolding update_import_query
update_import_query-clauses expand a b p post host ps port paths fi_before fi_behind lo_before
      lo_behind plain =
    let pre = a ++ (lit "LOCAL CSV" ++ b) in
    let t = template_of host port in
    let rest = b ++ (data_file ++ post) in
    ap
      (λ fs.
        replace_local expand zero t
          (replace_files data_file fs (pre ++ (clauses (p ∷ ps) ++ post))))
      (find_files-NoFil pre _ fi_before ∙ find_files-clauses (p ∷ ps) post paths fi_behind)
    ∙ ap (replace_local expand zero t) (
        replace_files-clauses pre post p ps fi_before paths.1
        ∙ append_assoc a (lit "LOCAL CSV" ++ b) (data_file ++ post))
    ∙ replace_local_before expand t a (lit "CAL CSV" ++ rest) lo_before
    ∙ ap (λ s. a ++ s)
        (replace_local_match expand t rest
          ∙ ap (λ s. s ++ replace_local expand zero t rest) (plain (lit "LOCAL CSV"))
          ∙ ap (λ s. t ++ s) (replace_local_none expand t rest lo_behind))
