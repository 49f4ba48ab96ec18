-- ===== src/Prepared.antt =====
-- The arguments of a prepared statement, laid out by columns: the loops of
-- `executePreparedStatement` in pkg/connection/connection.go, lines 139 to 164, and in statement.go,
-- lines 78 to 102; and `NamedValuesToValues` of internal/utils/helper.go.
mod Mod
mod Columns
pub mod Layout
use go_exasol.Base.Int.{ℤ}
use go_exasol.Base.{
  ℕ, zero, suc, ◌+◌, ◌%◌, Bool, true, false, not, List, [], ◌∷◌, ◌++◌, Option, none, some, Bytes,
  ◌==◌, if◌then◌else◌, length, replicate, get_elem?,
}
use go_exasol.Dsn.{is_empty}
use go_exasol.Errors.{err_invalid_values_count, err_named_values_not_supported}
use go_exasol.Result.{Result, ok, err, panic, ◌>>=◌}
use go_exasol.Types.{SqlQueryColumn, ExecutePreparedStatementCommand}

-- `driver.NamedValue`, without its ordinal
pub record NamedValue (V : Type 0) : Type 0 where
  pub name : Bytes
  pub value : V

unfoldable pub named_values_to_values : {V : Type 0} → List (NamedValue V) → Result (List V)
named_values_to_values [] = ok []
named_values_to_values (v ∷ vs) =
    let rest = named_values_to_values vs in
    if is_empty v.name
    then (do values ← rest; ok (v.value ∷ values))
    else err err_named_values_not_supported

module _ {V : Type 0} where
  -- `append`, after a nil slice was replaced by an empty one
  abbrev pub appended : Option (List V) → V → List V
  appended none v = v ∷ []
  appended (some column) v = column ++ v ∷ []

  abbrev pub append_at : ℕ → V → List (Option (List V)) → List (Option (List V))
  append_at i v [] = []
  append_at zero v (column ∷ columns) = some (appended column v) ∷ columns
  append_at (suc i) v (column ∷ columns) = column ∷ append_at i v columns

  -- The loop over the arguments from index `i` on, for `n` columns.
  unfoldable pub distribute : ℕ → ℕ → List V → List (Option (List V)) → List (Option (List V))
  distribute n i [] columns = columns
  distribute n i (arg ∷ args) columns = distribute n (i + 1) args (append_at (i % n) arg columns)

  -- `len(data[0])`
  abbrev pub rows_of : Option (List V) → ℕ
  rows_of none = 0
  rows_of (some column) = length column

  abbrev pub command_of :
      ℕ
      → ℤ
      → List SqlQueryColumn
      → List (Option (List V))
      → Result (ExecutePreparedStatementCommand V)
  command_of handle max_rows columns [] = panic
  command_of handle max_rows columns (first ∷ rest) = ok (record {
    statement_handle = handle;
    num_columns = length columns;
    num_rows = rows_of first;
    columns = columns;
    data_columns = first ∷ rest;
    result_set_max_rows = max_rows;
  })

  -- The command for the arguments. `len(args) % len(columns)` panics where there is no column.
  unfoldable pub prepare_command :
      ℕ → ℤ → List SqlQueryColumn → List V → Result (ExecutePreparedStatementCommand V)
  unfolding distribute
  prepare_command handle max_rows columns args =
      let n = length columns in
      if n == 0
      then panic
      else if not (length args % n == 0)
      then err err_invalid_values_count
      else command_of handle max_rows columns (distribute n 0 args (replicate n none))
