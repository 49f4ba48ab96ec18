-- ===== src/Import/Files.antt =====
-- The files that an import statement names.
use go_exasol.Base.{ℕ, ◌≡◌, refl, true, ◌||◌, some, List, [], ◌∷◌, ◌++◌, Bytes, lit, arith, All}
use go_exasol.Import.Query.{
  is_path_mark, behind_gap, behind_opening, behind_file, behind_quote, file_char, file_at,
}
use go_exasol.Text.Ways.{plus-first, first_way-ways}
use go_exasol.Text.Pattern.{Matched, is_letter, word, plus, star, optional, space, blank, quote}

-- A byte that the class of a path holds by itself.
abbrev pub IsFileByte : ℕ → Type 0
IsFileByte c = (is_letter c || is_path_mark c) ≡ true

-- A text that does not go on with a character of that class.
abbrev pub Stops : Bytes → Type 0
Stops s = file_char s ≡ 0

file_char-byte : (c : ℕ) (s : Bytes) → IsFileByte c → file_char (c ∷ s) ≡ 1
file_char-byte c [] h = ground (arith, h)
file_char-byte c (d ∷ []) h = ground (arith, h)
file_char-byte c (d ∷ e ∷ s) h = ground (arith, h)

-- The clause of a file in single quotes is found with its path, up to the first character that no
-- path holds, and with the quote and the blank behind it, if they are there.
pub file_at-clause :
    (c : ℕ) (path rest : Bytes) (q b : Matched) {qs bs : List Matched}
    → All IsFileByte (c ∷ path)
    → Stops rest
    → optional quote rest ≡ q ∷ qs
    → optional blank q.1 ≡ b ∷ bs
    → file_at (lit "FILE '" ++ ((c ∷ path) ++ rest))
      ≡ some ((lit "FILE '" ++ (c ∷ path)) ++ (q.0 ++ b.0), c ∷ path)
unfolding file_at star plus optional word
file_at-clause c path rest q b h stops f g =
    let (ms, e) =
      plus-first file_char (λ d. is_letter d || is_path_mark d) file_char-byte c path rest h
        stops in
    first_way-ways (behind_gap (lit "FILE")) (plus space (lit " '" ++ (c ∷ path ++ rest))) refl (
      first_way-ways (behind_opening (lit "FILE ")) (optional quote (b'\'' ∷ c ∷ path ++ rest)) refl
        (first_way-ways (behind_file (lit "FILE '")) (plus file_char (c ∷ path ++ rest)) e (
          first_way-ways (behind_quote (lit "FILE '" ++ c ∷ path) (c ∷ path)) (optional quote rest)
            f (first_way-ways _ (optional blank q.1) g refl))))
