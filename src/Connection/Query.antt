-- ===== src/Connection/Query.antt =====
-- The statements of pkg/connection/connection.go, lines 33 to 136 and 165 to 292, and `ToResult` of
-- util.go. Of `exec` this is the part that imports no local file: its one goroutine is waited for at
-- once, so it is a call here. All of it is in Import.
use go_exasol.Base.Int.{ℤ}
use go_exasol.Base.{
  ℕ, true, false, List, [], ◌∷◌, Option, none, some, Bytes, lit, ◌==◌, if◌then◌else◌,
}
use go_exasol.Connection.Send.{send, send_only}
use go_exasol.Connection.{M, return, fail, lift, ◌>>=◌, ◌>>◌}
use go_exasol.Errors.{Error, bad_conn, wrapped, err_malformed_data, err_no_last_insert_id}
use go_exasol.Prepared.{NamedValue, named_values_to_values, prepare_command}
use go_exasol.ResultSet.{QueryResults, to_row}
use go_exasol.Result.{Result, ok, err, panic}
use go_exasol.Types.{
  SqlQueryColumn, SqlQueriesResponse, CreatePreparedStatementResponse, sql_command,
  create_prepared_statement_command, execute_prepared_statement_command,
  close_prepared_statement_command, disconnect_command,
}
use go_exasol.Wire.{Wire, Context, background}

-- `RowCount`
pub record RowCount : Type 0 where
  pub affected_rows : ℤ

unfoldable pub last_insert_id : RowCount → Result ℤ
last_insert_id res = err err_no_last_insert_id

unfoldable pub rows_affected : RowCount → Result ℤ
rows_affected res = ok res.affected_rows

-- `Statement`: the connection is the one that its methods are called with.
pub record Statement : Type 0 where
  pub statement_handle : ℕ
  pub columns : List SqlQueryColumn
  pub num_input : ℕ

unfoldable pub new_statement : CreatePreparedStatementResponse → Statement
new_statement response = record {
  statement_handle = response.statement_handle;
  columns = response.columns;
  num_input = response.num_columns;
}

-- `err error` of Go beside no value: the error, or nil.
abbrev first_error : Result (Unit {0}) → Option Error → Result (Unit {0})
first_error (ok u) none = ok tt
first_error (ok u) (some e) = err (wrapped (lit "failed to close websocket") e)
first_error (err e) close_error = err e
first_error panic close_error = panic

module _ {World V Raw : Type 0} (wire : Wire World V Raw) where
  abbrev pub non_empty : SqlQueriesResponse Raw → M World (SqlQueriesResponse Raw)
  non_empty result = if result.num_results == 0 then fail err_malformed_data else return result

  unfoldable pub simple_exec : Context → Bytes → M World (SqlQueriesResponse Raw)
  simple_exec ctx query c =
      (do
        result ← send wire ctx (sql_command query c.config.result_set_max_rows) wire.decode_queries
        non_empty result)
        c

  unfoldable pub create_prepared_statement :
      Context → Bytes → M World CreatePreparedStatementResponse
  create_prepared_statement ctx query =
      send wire ctx (create_prepared_statement_command query) wire.decode_prepared

  unfoldable pub close_prepared_statement : Context → ℕ → M World (Unit {0})
  close_prepared_statement ctx handle = send_only wire ctx (close_prepared_statement_command handle)

  -- The parts that `executePreparedStatement` of a connection and of a statement share.
  unfoldable pub run_prepared :
      Context → ℕ → List SqlQueryColumn → List V → M World (SqlQueriesResponse Raw)
  run_prepared ctx handle columns args c =
      (do
        command ← lift (prepare_command handle c.config.result_set_max_rows columns args)
        result ← send wire ctx (execute_prepared_statement_command command) wire.decode_queries
        non_empty result)
        c

  -- `executePreparedStatement` of a connection closes the statement behind it.
  unfoldable pub execute_prepared_statement :
      Context → CreatePreparedStatementResponse → List V → M World (SqlQueriesResponse Raw)
  unfolding run_prepared close_prepared_statement
  execute_prepared_statement ctx s args = do
    result ← run_prepared ctx s.statement_handle s.columns args
    close_prepared_statement ctx s.statement_handle
    return result

  unfoldable pub to_result : SqlQueriesResponse Raw → Result RowCount
  to_result response = elim response.results [
    | [] ↦ panic
    | raw ∷ rest ↦ elim (wire.decode_row_count raw) [
      | ok result ↦ ok (record { affected_rows = result.row_count })
      | err e ↦ err e
      | panic ↦ panic
    ]
  ]

  -- Both ways to execute: with no values a plain command, and else a prepared statement.
  unfoldable pub execute : Context → Bytes → List V → M World (SqlQueriesResponse Raw)
  unfolding simple_exec create_prepared_statement execute_prepared_statement
  execute ctx query [] = simple_exec ctx query
  execute ctx query (arg ∷ args) = do
    response ← create_prepared_statement ctx query
    execute_prepared_statement ctx response (arg ∷ args)

  unfoldable pub query : Context → Bytes → List V → M World (QueryResults V)
  unfolding execute
  query ctx text args c =
      if c.is_closed
      then (err bad_conn, c)
      else (do result ← execute ctx text args; lift (to_row wire result)) c

  unfoldable pub query_context : Context → Bytes → List (NamedValue V) → M World (QueryResults V)
  unfolding query
  query_context ctx text args = do
    values ← lift (named_values_to_values args)
    query ctx text values

  -- `exec` of a query that imports no local file.
  unfoldable pub exec_without_import : Context → Bytes → List V → M World RowCount
  unfolding execute to_result
  exec_without_import ctx text args c =
      if c.is_closed
      then (err bad_conn, c)
      else (do result ← execute ctx text args; lift (to_result result)) c

  unfoldable pub prepare_context : Context → Bytes → M World Statement
  unfolding create_prepared_statement new_statement
  prepare_context ctx text c =
      if c.is_closed
      then (err bad_conn, c)
      else (do response ← create_prepared_statement ctx text; return (new_statement response)) c

  -- `Query` and `Prepare`
  unfoldable pub query_background : Bytes → List V → M World (QueryResults V)
  unfolding query
  query_background text args = query background text args

  unfoldable pub prepare : Bytes → M World Statement
  unfolding prepare_context
  prepare text = prepare_context background text

  -- `Close`; the call through a nil websocket panics.
  unfoldable pub close_websocket : Result (Unit {0}) → M World (Unit {0})
  close_websocket sent c =
      if c.connected
      then (let (close_error, w) = wire.close_socket c.world in
          (first_error sent close_error, record c { world = w; connected = false }))
      else (panic, c)

  unfoldable pub close : M World (Unit {0})
  unfolding close_websocket
  close c =
      let (sent, c') =
        send_only wire background disconnect_command (record c { is_closed = true }) in
      elim sent [
        | ok u ↦ close_websocket (ok u) c'
        | err e ↦ close_websocket (err e) c'
        | panic ↦ (panic, c')
      ]
