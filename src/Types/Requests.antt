-- ===== src/Types/Requests.antt =====
-- A reader of requests, by the names of commands and fields: what a server makes of the JSON values
-- of Encode.
use go_exasol.Base.Int.{ℤ}
use go_exasol.Base.{ℕ, Option, none, some, Bytes, lit, equal, if◌then◌else◌}
use go_exasol.Types.Json.{Json, text, object, Fields}
use go_exasol.Types.{
  LoginAttributes, AuthCommand, ExecutePreparedStatementCommand, Request, login_command,
  login_token_command, auth_command, sql_command, create_prepared_statement_command,
  execute_prepared_statement_command, close_prepared_statement_command, close_result_set_command,
  fetch_command, disconnect_command, abort_query_command,
}
use go_exasol.Types.Decode.{
  ◌>>=◌, lookup, read_text, read_number, read_count, read_flag, read_array, read_slice, read_value,
  read_object, read_column,
}

module _ {V : Type 0} where
  unfoldable pub read_login_attributes : Fields V → Option LoginAttributes
  read_login_attributes fields = do
    autocommit ← read_flag (lookup (lit "autocommit") fields)
    current_schema ← read_text (lookup (lit "currentSchema") fields)
    compression_enabled ← read_flag (lookup (lit "compressionEnabled") fields)
    query_timeout ← read_number (lookup (lit "queryTimeout") fields)
    some (record {
      autocommit = autocommit;
      current_schema = current_schema;
      compression_enabled = compression_enabled;
      query_timeout = query_timeout;
    })

  unfoldable pub read_max_rows : Fields V → Option ℤ
  read_max_rows fields = read_number (lookup (lit "resultSetMaxRows") fields)

  unfoldable pub read_auth : Fields V → Option AuthCommand
  read_auth fields = do
    username ← read_text (lookup (lit "username") fields)
    password ← read_text (lookup (lit "password") fields)
    access_token ← read_text (lookup (lit "accessToken") fields)
    refresh_token ← read_text (lookup (lit "refreshToken") fields)
    use_compression ← read_flag (lookup (lit "useCompression") fields)
    client_name ← read_text (lookup (lit "clientName") fields)
    driver_name ← read_text (lookup (lit "driverName") fields)
    client_os ← read_text (lookup (lit "clientOs") fields)
    client_os_username ← read_text (lookup (lit "clientOsUsername") fields)
    client_version ← read_text (lookup (lit "clientVersion") fields)
    client_runtime ← read_text (lookup (lit "clientRuntime") fields)
    attributes ← read_object read_login_attributes (lookup (lit "attributes") fields)
    some (record {
      username = username;
      password = password;
      access_token = access_token;
      refresh_token = refresh_token;
      use_compression = use_compression;
      client_name = client_name;
      driver_name = driver_name;
      client_os = client_os;
      client_os_username = client_os_username;
      client_version = client_version;
      client_runtime = client_runtime;
      attributes = attributes;
    })

  unfoldable pub read_execute_prepared : Fields V → Option (ExecutePreparedStatementCommand V)
  read_execute_prepared fields = do
    handle ← read_count (lookup (lit "statementHandle") fields)
    num_columns ← read_count (lookup (lit "numColumns") fields)
    num_rows ← read_count (lookup (lit "numRows") fields)
    columns ← read_array read_column (lookup (lit "columns") fields)
    data_columns ← read_array (read_slice read_value) (lookup (lit "data") fields)
    max_rows ← read_object read_max_rows (lookup (lit "attributes") fields)
    some (record {
      statement_handle = handle;
      num_columns = num_columns;
      num_rows = num_rows;
      columns = columns;
      data_columns = data_columns;
      result_set_max_rows = max_rows;
    })

  abbrev pub handle_of : Bytes → Fields V → Option ℕ
  handle_of name fields = read_count (lookup name fields)

  -- The commands, by their names.
  unfoldable pub read_command : Bytes → Fields V → Option (Request V)
  read_command name fields =
      if equal name (lit "login")
      then read_number (lookup (lit "protocolVersion") fields) >>= (λ v. some (login_command v))
      else if equal name (lit "loginToken")
      then read_number (lookup (lit "protocolVersion") fields)
        >>= (λ v. some (login_token_command v))
      else if equal name (lit "execute")
      then (do
        query ← read_text (lookup (lit "sqlText") fields)
        max_rows ← read_object read_max_rows (lookup (lit "attributes") fields)
        some (sql_command query max_rows))
      else if equal name (lit "createPreparedStatement")
      then read_text (lookup (lit "sqlText") fields)
        >>= (λ query. some (create_prepared_statement_command query))
      else if equal name (lit "executePreparedStatement")
      then read_execute_prepared fields >>= (λ e. some (execute_prepared_statement_command e))
      else if equal name (lit "closePreparedStatement")
      then handle_of (lit "statementHandle") fields
        >>= (λ handle. some (close_prepared_statement_command handle))
      else if equal name (lit "closeResultSet")
      then read_array (λ j. read_count (some j)) (lookup (lit "resultSetHandles") fields)
        >>= (λ handles. some (close_result_set_command handles))
      else if equal name (lit "fetch")
      then (do
        handle ← handle_of (lit "resultSetHandle") fields
        start ← handle_of (lit "startPosition") fields
        bytes ← read_number (lookup (lit "numBytes") fields)
        some (fetch_command handle start bytes))
      else if equal name (lit "disconnect")
      then some disconnect_command
      else if equal name (lit "abortQuery")
      then some abort_query_command
      else none

  -- Only an authentication has no command.
  unfoldable pub read_request : Json V → Option (Request V)
  read_request (object fields) = elim (lookup (lit "command") fields) [
    | none ↦ read_auth fields >>= (λ a. some (auth_command a))
    | some (text name) ↦ read_command name fields
    | some j ↦ none
  ]
  read_request j = none
