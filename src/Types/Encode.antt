-- ===== src/Types/Encode.antt =====
-- The structs of pkg/types/request_types.go as JSON values, by their tags, and the names of the
-- commands that pkg/connection sends.
use go_exasol.Base.Int.{ℤ, pos}
use go_exasol.Base.{ℕ, Bool, List, [], ◌∷◌, Option, none, some, Bytes, lit}
use go_exasol.Types.Json.{
  Json, boolean, number, text, value, object, fields_of, filled_text, filled_number, pointed,
  array_of, filled_array, slice,
}
use go_exasol.Types.{
  SqlQueryColumnType, SqlQueryColumn, LoginAttributes, AuthCommand, ExecutePreparedStatementCommand,
  Request, login_command, login_token_command, auth_command, sql_command,
  create_prepared_statement_command, execute_prepared_statement_command,
  close_prepared_statement_command, close_result_set_command, fetch_command, disconnect_command,
  abort_query_command,
}

-- `Attributes`
pub record Attributes : Type 0 where
  pub autocommit : Option Bool
  pub compression_enabled : Option Bool
  pub current_schema : Bytes
  pub date_format : Bytes
  pub date_language : Bytes
  pub datetime_format : Bytes
  pub default_like_escape_character : Bytes
  pub feedback_interval : ℤ
  pub numeric_characters : Bytes
  pub open_transaction : Option Bool
  pub query_timeout : ℤ
  pub snapshot_transactions_enabled : Option Bool
  pub timestamp_utc_enabled : Option Bool
  pub timezone : Bytes
  pub time_zone_behavior : Bytes
  pub result_set_max_rows : ℤ

-- `Attributes{}`
abbrev pub no_attributes : Attributes
no_attributes = record {
  autocommit = none;
  compression_enabled = none;
  current_schema = [];
  date_format = [];
  date_language = [];
  datetime_format = [];
  default_like_escape_character = [];
  feedback_interval = pos 0;
  numeric_characters = [];
  open_transaction = none;
  query_timeout = pos 0;
  snapshot_transactions_enabled = none;
  timestamp_utc_enabled = none;
  timezone = [];
  time_zone_behavior = [];
  result_set_max_rows = pos 0;
}

-- The attributes of a login, which points to copies of its flags.
abbrev pub login_attributes : LoginAttributes → Attributes
login_attributes a = record no_attributes {
  autocommit = some a.autocommit;
  current_schema = a.current_schema;
  compression_enabled = some a.compression_enabled;
  query_timeout = a.query_timeout;
}

module _ {V : Type 0} where
  unfoldable pub attributes_json : Attributes → Json V
  attributes_json a = object (
      fields_of (
        (lit "autocommit", pointed boolean a.autocommit)
        ∷ (lit "compressionEnabled", pointed boolean a.compression_enabled)
        ∷ (lit "currentSchema", filled_text a.current_schema)
        ∷ (lit "dateFormat", filled_text a.date_format)
        ∷ (lit "dateLanguage", filled_text a.date_language)
        ∷ (lit "datetimeFormat", filled_text a.datetime_format)
        ∷ (lit "defaultLikeEscapeCharacter", filled_text a.default_like_escape_character)
        ∷ (lit "feedbackInterval", filled_number a.feedback_interval)
        ∷ (lit "numericCharacters", filled_text a.numeric_characters)
        ∷ (lit "openTransaction", pointed boolean a.open_transaction)
        ∷ (lit "queryTimeout", filled_number a.query_timeout)
        ∷ (lit "snapshotTransactionsEnabled", pointed boolean a.snapshot_transactions_enabled)
        ∷ (lit "timestampUtcEnabled", pointed boolean a.timestamp_utc_enabled)
        ∷ (lit "timezone", filled_text a.timezone)
        ∷ (lit "timeZoneBehavior", filled_text a.time_zone_behavior)
        ∷ (lit "resultSetMaxRows", filled_number a.result_set_max_rows)
        ∷ []))

  abbrev pub count : ℕ → Json V
  count n = number (pos n)

  unfoldable pub column_type_json : SqlQueryColumnType → Json V
  column_type_json t = object (
      fields_of (
        (lit "type", some (text t.type))
        ∷ (lit "precision", pointed number t.precision)
        ∷ (lit "scale", pointed number t.scale)
        ∷ (lit "size", pointed number t.size)
        ∷ (lit "characterSet", pointed text t.character_set)
        ∷ (lit "withLocalTimeZone", pointed boolean t.with_local_time_zone)
        ∷ (lit "fraction", pointed number t.fraction)
        ∷ (lit "srid", pointed number t.srid)
        ∷ []))

  unfoldable pub column_json : SqlQueryColumn → Json V
  unfolding column_type_json
  column_json c = object (
      fields_of (
        (lit "name", some (text c.name))
        ∷ (lit "dataType", some (column_type_json c.data_type))
        ∷ []))

  -- A struct with `Command` embedded.
  abbrev pub command : Bytes → List (Bytes × Option (Json V)) → Json V
  command name rest = object (fields_of ((lit "command", some (text name)) ∷ rest))

  abbrev pub attributes_field : Attributes → Bytes × Option (Json V)
  attributes_field a = (lit "attributes", some (attributes_json a))

  unfoldable pub auth_json : AuthCommand → Json V
  unfolding attributes_json
  auth_json a = object (
      fields_of (
        (lit "username", filled_text a.username)
        ∷ (lit "password", filled_text a.password)
        ∷ (lit "accessToken", filled_text a.access_token)
        ∷ (lit "refreshToken", filled_text a.refresh_token)
        ∷ (lit "useCompression", some (boolean a.use_compression))
        ∷ (lit "sessionId", filled_number (pos 0))
        ∷ (lit "clientName", filled_text a.client_name)
        ∷ (lit "driverName", filled_text a.driver_name)
        ∷ (lit "clientOs", filled_text a.client_os)
        ∷ (lit "clientOsUsername", filled_text a.client_os_username)
        ∷ (lit "clientLanguage", filled_text [])
        ∷ (lit "clientVersion", filled_text a.client_version)
        ∷ (lit "clientRuntime", filled_text a.client_runtime)
        ∷ attributes_field (login_attributes a.attributes)
        ∷ []))

  unfoldable pub execute_prepared_json : ExecutePreparedStatementCommand V → Json V
  unfolding attributes_json column_json
  execute_prepared_json e = command (lit "executePreparedStatement") (
      (lit "statementHandle", some (count e.statement_handle))
      ∷ (lit "numColumns", filled_number (pos e.num_columns))
      ∷ (lit "numRows", some (count e.num_rows))
      ∷ (lit "columns", filled_array column_json e.columns)
      ∷ (lit "data", some (array_of (slice value) e.data_columns))
      ∷ attributes_field (record no_attributes { result_set_max_rows = e.result_set_max_rows })
      ∷ [])

  unfoldable pub to_json : Request V → Json V
  unfolding attributes_json auth_json execute_prepared_json
  to_json (login_command version) =
      command (lit "login")
        ((lit "protocolVersion", some (number version)) ∷ attributes_field no_attributes ∷ [])
  to_json (login_token_command version) =
      command (lit "loginToken")
        ((lit "protocolVersion", some (number version)) ∷ attributes_field no_attributes ∷ [])
  to_json (auth_command a) = auth_json a
  to_json (sql_command query max_rows) = command (lit "execute") (
      (lit "sqlText", some (text query))
      ∷ attributes_field (record no_attributes { result_set_max_rows = max_rows })
      ∷ [])
  to_json (create_prepared_statement_command query) =
      command (lit "createPreparedStatement")
        ((lit "sqlText", some (text query)) ∷ attributes_field no_attributes ∷ [])
  to_json (execute_prepared_statement_command e) = execute_prepared_json e
  to_json (close_prepared_statement_command handle) =
      command (lit "closePreparedStatement")
        ((lit "statementHandle", some (count handle)) ∷ attributes_field no_attributes ∷ [])
  to_json (close_result_set_command handles) = command (lit "closeResultSet") (
      (lit "resultSetHandles", some (array_of count handles)) ∷ attributes_field no_attributes ∷ [])
  to_json (fetch_command handle start bytes) = command (lit "fetch") (
      (lit "resultSetHandle", some (count handle))
      ∷ (lit "startPosition", some (count start))
      ∷ (lit "numBytes", some (number bytes))
      ∷ [])
  to_json disconnect_command = command (lit "disconnect") []
  to_json abort_query_command = command (lit "abortQuery") []
