-- ===== src/Proxy/Lines.antt =====
-- The lines that a file is sent in: together they are the file, its last line ended.
use go_exasol.Base.{
  append-nil, ℕ, ◌≡◌, ◌≢◌, refl, Bool, false, ◌||◌, none, some, List, [], ◌∷◌, ◌++◌, Bytes, ◌==◌,
  if◌then◌else◌, arith, All,
}
use go_exasol.Dsn.{is_empty}
use go_exasol.Errors.{Error}
use go_exasol.Proxy.Decode.{concat}
use go_exasol.Proxy.Send.{Read, extend, reads_of, outgoing}

-- What is sent for a file's reads.
unfoldable pub lines_of : Bytes → List Read → List Bytes
unfolding outgoing
lines_of sep [] = []
lines_of sep (read ∷ reads) = elim (outgoing sep read) [
  | none ↦ []
  | some line ↦ line ∷ lines_of sep reads
]

abbrev pub ends_in : ℕ → Bytes → Bool
ends_in d [] = false
ends_in d (c ∷ []) = c == d
ends_in d (c ∷ x ∷ s) = ends_in d (x ∷ s)

-- The content, and a row separator behind a last line that has none.
abbrev pub terminated : ℕ → Bytes → Bytes → Bytes
terminated d sep s = if is_empty s || ends_in d s then s else s ++ sep

abbrev Starts : List Read → Type 0
Starts [] = ⊥
Starts (([], e) ∷ reads) = ⊥
Starts ((c ∷ line, e) ∷ reads) = Unit

extend-Starts : (c : ℕ) (reads : List Read) → reads ≢ [] → Starts (extend c reads)
extend-Starts c [] h = absurd (h refl)
extend-Starts c ((line, none) ∷ reads) h = tt
extend-Starts c (([], some e) ∷ reads) h = tt
extend-Starts c ((d ∷ line, some e) ∷ reads) h = tt

Starts-ne : (reads : List Read) → Starts reads → reads ≢ []
Starts-ne [] h = absurd h
Starts-ne (r ∷ reads) h = λ e. cc

module _ (d : ℕ) (ending : Error) (sep : Bytes) where
  reads_of-Starts : (c : ℕ) (s : Bytes) → Starts (reads_of d ending (c ∷ s))
  unfolding reads_of
  reads_of-Starts c [] = ground arith
  reads_of-Starts c (x ∷ s) =
      ground
        (arith, extend-Starts c (reads_of d ending (x ∷ s)) (Starts-ne _ (reads_of-Starts x s)))

  concat-extend :
      (c : ℕ) (reads : List Read)
      → Starts reads
      → concat (lines_of sep (extend c reads)) ≡ c ∷ concat (lines_of sep reads)
  unfolding lines_of
  concat-extend c [] h = absurd h
  concat-extend c (([], e) ∷ reads) h = absurd h
  concat-extend c ((x ∷ line, none) ∷ reads) h = refl
  concat-extend c ((x ∷ line, some e) ∷ reads) h = refl

  pub concat-lines_of :
      (s : Bytes) → concat (lines_of sep (reads_of d ending s)) ≡ terminated d sep s
  unfolding reads_of lines_of
  concat-lines_of [] = refl
  concat-lines_of (c ∷ []) = ground (arith, append-nil sep)
  concat-lines_of (c ∷ x ∷ s) = ground (
    arith,
    concat-lines_of (x ∷ s),
    concat-extend c (reads_of d ending (x ∷ s)) (reads_of-Starts x s),
  )

  pub lines_of_ne : (reads : List Read) → All (λ line. line ≢ []) (lines_of sep reads)
  unfolding lines_of
  lines_of_ne [] = tt
  lines_of_ne (([], none) ∷ reads) = tt
  lines_of_ne (([], some e) ∷ reads) = tt
  lines_of_ne ((c ∷ line, none) ∷ reads) = (λ e. cc, lines_of_ne reads)
  lines_of_ne ((c ∷ line, some e) ∷ reads) = (λ e. cc, lines_of_ne reads)

pub outgoing_ne : (sep : Bytes) (read : Read) → outgoing sep read ≢ some []
unfolding outgoing
outgoing_ne sep ([], none) = λ e. cc
outgoing_ne sep ([], some x) = λ e. cc
outgoing_ne sep (c ∷ line, none) = λ e. cc
outgoing_ne sep (c ∷ line, some x) = λ e. cc
