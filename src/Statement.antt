-- ===== src/Statement.antt =====
-- pkg/connection/statement.go. A statement's methods take the connection that it points to.
use go_exasol.Base.{ℕ, List, if◌then◌else◌}
use go_exasol.Connection.Query.{
  Statement, RowCount, run_prepared, close_prepared_statement, to_result,
}
use go_exasol.Connection.{M, lift, ◌>>=◌}
use go_exasol.Errors.{bad_conn}
use go_exasol.Prepared.{NamedValue, named_values_to_values}
use go_exasol.ResultSet.{QueryResults, to_row}
use go_exasol.Result.{err}
use go_exasol.Types.{SqlQueriesResponse}
use go_exasol.Wire.{Wire, Context, background}

module _ {World V Raw : Type 0} (wire : Wire World V Raw) where
  unfoldable pub execute_statement : Statement → Context → List V → M World (SqlQueriesResponse Raw)
  unfolding run_prepared
  execute_statement s ctx args = run_prepared wire ctx s.statement_handle s.columns args

  unfoldable pub statement_query : Statement → List V → M World (QueryResults V)
  unfolding execute_statement
  statement_query s args = do
    result ← execute_statement s background args
    lift (to_row wire result)

  unfoldable pub statement_query_context :
      Statement → Context → List (NamedValue V) → M World (QueryResults V)
  unfolding execute_statement
  statement_query_context s ctx args = do
    values ← lift (named_values_to_values args)
    result ← execute_statement s ctx values
    lift (to_row wire result)

  unfoldable pub statement_exec : Statement → List V → M World RowCount
  unfolding execute_statement
  statement_exec s args = do
    result ← execute_statement s background args
    lift (to_result wire result)

  unfoldable pub statement_exec_context :
      Statement → Context → List (NamedValue V) → M World RowCount
  unfolding execute_statement
  statement_exec_context s ctx args = do
    values ← lift (named_values_to_values args)
    result ← execute_statement s ctx values
    lift (to_result wire result)

  unfoldable pub statement_close : Statement → M World (Unit {0})
  unfolding close_prepared_statement
  statement_close s c =
      if c.is_closed
      then (err bad_conn, c)
      else close_prepared_statement wire background s.statement_handle c

  unfoldable pub num_input : Statement → ℕ
  num_input s = s.num_input
