-- ===== src/Prepared/Layout.antt =====
-- The command that the arguments are sent in: where each argument goes.
use native.Mathlib.Nat.{mul-mod_left}
use go_exasol.Base.Int.{ℤ}
use go_exasol.Base.{
  ℕ, zero, suc, ◌+◌, ◌*◌, ◌%◌, ◌<◌, ◌≡◌, ◌≢◌, refl, sym, ap, ◌∙◌, false, List, [], ◌∷◌, Option,
  none, some, ◌==◌, arith, length, replicate, get_elem?, length-replicate,
}
use go_exasol.Prepared.Columns.{
  start_index, get_elem?-replicate, picked, extended, get_elem?-distribute, get_elem?-picked,
  length-picked,
}
use go_exasol.Prepared.{append_at, distribute, prepare_command, rows_of, command_of}
use go_exasol.Result.{Succeeds}
use go_exasol.Types.{SqlQueryColumn, ExecutePreparedStatementCommand}

module _ {V : Type 0} where
  -- The entry of column `j` in row `r`; a nil column has none.
  abbrev pub entry : List (Option (List V)) → ℕ → ℕ → Option V
  entry columns j r = elim (get_elem? columns j) [
    | none ↦ none
    | some column ↦ elim column [ none ↦ none | some vs ↦ get_elem? vs r ]
  ]

  -- The command holds the arguments row by row.
  pub record IsLaidOut (columns : List SqlQueryColumn) (args : List V) (rows : ℕ)
      (command : ExecutePreparedStatementCommand V) : Type 0 where
    pub columns_are : command.columns ≡ columns
    pub num_columns : command.num_columns ≡ length columns
    pub num_rows : command.num_rows ≡ rows
    pub data_length : length command.data_columns ≡ length columns
    pub entries :
        (j r : ℕ)
        → j < length columns
        → entry command.data_columns j r ≡ get_elem? args (r * length columns + j)

  length-append_at :
      (i : ℕ) (v : V) (columns : List (Option (List V)))
      → length (append_at i v columns) ≡ length columns
  length-append_at i v [] = ground arith
  length-append_at zero v (column ∷ columns) = refl
  length-append_at (suc i) v (column ∷ columns) = ap suc (length-append_at i v columns)

  -- What the loop makes of nil columns.
  filled :
      (n j : ℕ) (args : List V)
      → j < n
      → get_elem? (distribute n 0 args (replicate n none)) j
        ≡ some (extended none (picked n j 0 args))
  filled n j args h =
      get_elem?-distribute n 0 j args (replicate n none) (get_elem?-replicate n j none h)

  entry_filled :
      (n j r : ℕ) (args : List V)
      → j < n
      → entry (distribute n 0 args (replicate n none)) j r ≡ get_elem? args (r * n + j)
  entry_filled n j r args h =
      rw (filled n j args h, entry)
        (from_picked (picked n j 0 args) (get_elem?-picked n j 0 j r args h h (start_index n j h)))
    where
      from_picked :
          (vs : List V)
          → get_elem? vs r ≡ get_elem? args (r * n + j)
          → (elim (extended none vs) [ none ↦ none | some ws ↦ get_elem? ws r ])
            ≡ get_elem? args (r * n + j)
      from_picked [] e = e
      from_picked (v ∷ vs) e = e

  length-distribute :
      (n i : ℕ) (args : List V) (columns : List (Option (List V)))
      → length (distribute n i args columns) ≡ length columns
  unfolding distribute
  length-distribute n i [] columns = refl
  length-distribute n i (arg ∷ args) columns =
      length-distribute n (i + 1) args (append_at (i % n) arg columns)
      ∙ length-append_at (i % n) arg columns

  rows_of_filled : (vs : List V) → rows_of (extended none vs) ≡ length vs
  rows_of_filled [] = refl
  rows_of_filled (v ∷ vs) = refl

  command_of-IsLaidOut :
      (handle rows : ℕ) (max_rows : ℤ) (columns : List SqlQueryColumn) (args : List V)
      (filled_columns : List (Option (List V)))
      → columns ≢ []
      → length args ≡ rows * length columns
      → distribute (length columns) 0 args (replicate (length columns) none) ≡ filled_columns
      → Succeeds (IsLaidOut columns args rows) (command_of handle max_rows columns filled_columns)
  command_of-IsLaidOut handle rows max_rows [] args data_columns h e f = absurd (h refl)
  command_of-IsLaidOut handle rows max_rows (x ∷ columns) args [] h e f =
      let n = length (x ∷ columns) in
      absurd (
        omega (
          arith,
          ap length f,
          length-distribute n 0 args (replicate n none),
          length-replicate {A = Option (List V)} n none,
        ))
  command_of-IsLaidOut handle rows max_rows (x ∷ columns) args (first ∷ rest) h e f =
      let n = length (x ∷ columns) in
      let at_zero : some first ≡ some (extended none (picked n 0 0 args)) =
        ap (λ l. get_elem? l 0) (sym f) ∙ filled n 0 args (omega arith) in
      let first_is : first ≡ extended none (picked n 0 0 args) = cc in
      record {
        columns_are = refl;
        num_columns = refl;
        num_rows =
            ap rows_of first_is
            ∙ rows_of_filled (picked n 0 0 args)
            ∙ length-picked n 0 rows args (omega arith) e;
        data_length =
            ap length (sym f)
            ∙ length-distribute n 0 args (replicate n none)
            ∙ length-replicate n none;
        entries = λ j r lt. ap (λ l. entry l j r) (sym f) ∙ entry_filled n j r args lt;
      }

  -- Arguments for a whole number of rows of a statement with parameters make a command with that
  -- many rows, in which the value of column `j` in row `r` is the argument `r * n + j`.
  pub prepare_command-IsLaidOut :
      (handle rows : ℕ) (max_rows : ℤ) (columns : List SqlQueryColumn) (args : List V)
      → columns ≢ []
      → length args ≡ rows * length columns
      → Succeeds (IsLaidOut columns args rows) (prepare_command handle max_rows columns args)
  unfolding prepare_command
  prepare_command-IsLaidOut handle rows max_rows [] args h e = absurd (h refl)
  prepare_command-IsLaidOut handle rows max_rows (x ∷ columns) args h e =
      let n = length (x ∷ columns) in
      let divides : length args % n ≡ 0 = ap (λ k. k % n) e ∙ mul-mod_left rows n in
      let nonzero : (n == 0) ≡ false = ground arith in
      rw (nonzero, divides)
        (command_of-IsLaidOut handle rows max_rows (x ∷ columns) args _ h e refl)
