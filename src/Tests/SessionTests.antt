-- ===== src/Tests/SessionTests.antt =====
-- The theorems on connections, statements and result sets, at a database that answers.
use go_exasol.Base.Int.{pos}
use go_exasol.Base.{◌≡◌, ◌≢◌, refl, none, some, lit, true, false, List, [], ◌∷◌, Bytes, arith, ℕ}
use go_exasol.Connection.Closing.{close-closed, close_twice}
use go_exasol.Connection.Login.{login, pre_login, set_compression, auth_request, with_os_user}
use go_exasol.Connection.Query.{simple_exec, close, Statement}
use go_exasol.Connection.Send.{send, send_only}
use go_exasol.Connection.Session.{
  login-opens, login_loses_compression, login_rejected, pre_login-IsAuthRequest, IsAuthRequest,
}
use go_exasol.Connection.{Connection}
use go_exasol.Errors.{bad_conn, wrapped, unparsed, err_invalid_conn, eof}
use go_exasol.Prepared.Layout.{prepare_command-IsLaidOut, IsLaidOut}
use go_exasol.Prepared.{prepare_command}
use go_exasol.ResultSet.Drain.{collect-rows, IsFresh}
use go_exasol.ResultSet.Serve.{collect}
use go_exasol.ResultSet.{QueryResults, next}
use go_exasol.Result.{ok, err, panic, Succeeds}
use go_exasol.Tests.Samples.{wire, host, config, connection, server, results, column}
use go_exasol.Transaction.{finish_once, finish}
use go_exasol.Types.Decode.{lookup}
use go_exasol.Types.Requests.{read_auth, read_command, read_login_attributes, read_request}
use go_exasol.Types.Encode.{to_json}
use go_exasol.Types.Json.{fields_of}
use go_exasol.Types.RoundTrip.{read_request-to_json}
use go_exasol.Types.{
  SqlQueryColumn, AuthCommand, auth_command, ExecutePreparedStatementCommand,
  execute_prepared_statement_command,
}
use go_exasol.Wire.{Wire, background}

results-IsFresh : IsFresh server results
results-IsFresh = record {
  rows = refl;
  handle_is = refl;
  nothing_fetched = refl;
  at_start = (refl, refl);
  in_message = λ h. absurd (omega arith);
}

collect-rows_example :
    (q' : QueryResults ℕ) × (c' : Connection Bytes) × (collect wire 3 2 results connection
      ≡ (ok (q', (0 ∷ 10 ∷ []) ∷ (1 ∷ 11 ∷ []) ∷ (2 ∷ 12 ∷ []) ∷ []), c'))
    × (next wire 2 q' c' ≡ (err eof, c'))
collect-rows_example = collect-rows server results connection results-IsFresh refl

-- Six arguments for two columns.
abbrev two_columns : List SqlQueryColumn
two_columns = column (lit "A") ∷ column (lit "B") ∷ []

abbrev six : List ℕ
six = 1 ∷ 2 ∷ 3 ∷ 4 ∷ 5 ∷ 6 ∷ []

prepare_command-IsLaidOut_example :
    Succeeds (IsLaidOut two_columns six 3) (prepare_command 7 (pos 0) two_columns six)
prepare_command-IsLaidOut_example = prepare_command-IsLaidOut 7 3 (pos 0) two_columns six (cc) refl

-- Three rows: the values of A, and those of B.
laid_out :
    (elim (prepare_command 7 (pos 0) two_columns six) [
      | ok command ↦ command.data_columns
      | err e ↦ []
      | panic ↦ []
    ])
    ≡ some (1 ∷ 3 ∷ 5 ∷ []) ∷ some (2 ∷ 4 ∷ 6 ∷ []) ∷ []
unfolding prepare_command
laid_out = refl

abbrev pub without_parameters : Statement
without_parameters = record { statement_handle = 7; columns = []; num_input = 0 }

close_returns : (close wire connection).0 ≢ panic
unfolding close send_only
close_returns = λ e. cc

close_leaves_closed :
    ((close wire connection).1.is_closed ≡ true) × ((close wire connection).1.connected ≡ false)
close_leaves_closed = close-closed wire connection close_returns

close_twice_example : (close wire (close wire connection).1).0 ≡ panic
close_twice_example = close_twice wire connection close_returns

commit_returns : (finish wire (lit "COMMIT") (record { active = true }) connection).0 ≢ panic
unfolding finish simple_exec send
commit_returns = λ e. cc

finish_once_example :
    finish wire
      (lit "ROLLBACK")
      (finish wire (lit "COMMIT") (record { active = true }) connection).1
      connection
    ≡ (err err_invalid_conn, record { active = false }, connection)
finish_once_example =
    finish_once wire (lit "COMMIT") (lit "ROLLBACK") (record { active = true }) connection
      connection refl commit_returns

login_succeeds : (login wire host background connection).0 ≡ ok tt
unfolding login pre_login send
login_succeeds = refl

login-opens_example :
    ((login wire host background connection).1.config ≡ config)
    × ((login wire host background connection).1.is_closed ≡ false)
    × ((login wire host background connection).1.connected ≡ true)
login-opens_example = login-opens wire host background connection login_succeeds

-- A database that does not answer.
abbrev silent : Wire Bytes ℕ Bytes
silent = record wire { read_message = λ w. (err bad_conn, w) }

no_answer :
    (pre_login silent host background true (set_compression false connection)).0 ≡ err bad_conn
unfolding pre_login send
no_answer = refl

login_loses_compression_example :
    ((login silent host background connection).0 ≡ err bad_conn)
    × ((login silent host background connection).1.config ≡ record config { compression = false })
    × ((login silent host background connection).1.is_closed ≡ false)
login_loses_compression_example =
    login_loses_compression silent host background connection no_answer

abbrev auth : AuthCommand
unfolding auth_request
auth = record (auth_request host config true) { username = lit "sys"; password = lit "exasol" }

auth_is : (pre_login wire host background true connection).0 ≡ ok auth
unfolding pre_login send auth_request auth read_request lookup fields_of read_command
auth_is = refl

pre_login-IsAuthRequest_example : IsAuthRequest wire host config true auth
pre_login-IsAuthRequest_example =
    pre_login-IsAuthRequest wire host background true connection auth_is

-- A database whose answer to the credentials cannot be read.
abbrev rejecting : Wire Bytes ℕ Bytes
rejecting = record wire { decode_auth = λ raw. err bad_conn }

greeted :
    pre_login rejecting host background true (set_compression false connection)
    ≡ (ok auth, set_compression false connection)
unfolding pre_login send auth_request auth read_request lookup fields_of read_command
greeted = refl

rejected :
    (send rejecting background
      (auth_command (with_os_user host.os_user auth))
      rejecting.decode_auth
      (set_compression false connection)).0
    ≡ err (unparsed [] bad_conn)
unfolding send read_request lookup fields_of auth read_auth read_login_attributes
rejected = refl

login_rejected_example :
    ((login rejecting host background connection).0
      ≡ err (wrapped (lit "failed to login") (unparsed [] bad_conn)))
    × ((login rejecting host background connection).1.config ≡ config)
    × ((login rejecting host background connection).1.is_closed ≡ true)
    × ((login rejecting host background connection).1.connected ≡ true)
login_rejected_example =
    login_rejected rejecting host background connection (set_compression false connection) greeted
      rejected

-- A prepared statement with one column, whose type has no more than a name, and a nil slice.
abbrev prepared : ExecutePreparedStatementCommand ℕ
prepared = record {
  statement_handle = 7;
  num_columns = 2;
  num_rows = 1;
  columns =
      record {
        name = lit "C";
        data_type = record {
          type = lit "DECIMAL";
          precision = some (pos 18);
          scale = some (pos 0);
          size = none;
          character_set = none;
          with_local_time_zone = none;
          fraction = none;
          srid = none;
        };
      }
      ∷ [];
  data_columns = some (5 ∷ []) ∷ none ∷ [];
  result_set_max_rows = pos 0;
}

read_request-to_json_example :
    read_request (to_json (execute_prepared_statement_command prepared))
    ≡ some (execute_prepared_statement_command prepared)
read_request-to_json_example = read_request-to_json ℕ (execute_prepared_statement_command prepared)
