-- ===== src/Tests/Samples.antt =====
-- A database that answers every request, and a table of three rows that it hands out one by one.
use go_exasol.Base.Int.{times, pos}
use go_exasol.Base.{
  ℕ, zero, suc, ◌+◌, ◌≡◌, refl, true, false, List, [], ◌∷◌, none, some, Bytes, lit, arith,
}
use go_exasol.Config.{Config}
use go_exasol.Connection.Login.{Host}
use go_exasol.Connection.Send.{send}
use go_exasol.Connection.{Connection}
use go_exasol.ResultSet.Serve.{Serves, HoldsRows}
use go_exasol.ResultSet.{QueryResults}
use go_exasol.Result.{ok}
use go_exasol.Types.Requests.{read_request}
use go_exasol.Types.Json.{Json}
use go_exasol.Types.RoundTrip.{read_request-to_json}
use go_exasol.Types.{fetch_command, SqlQueryColumn, SqlQueryResponseResultSetData}
use go_exasol.Wire.{Wire}

-- A message is the position that a fetch asks for, and empty for any other request.
abbrev pub message_of : Json ℕ → Bytes
message_of j = elim (read_request j) [
  | some (fetch_command handle start bytes) ↦ start ∷ []
  | some request ↦ []
  | none ↦ []
]

abbrev position_of : Bytes → ℕ
position_of [] = 0
position_of (start ∷ rest) = start

abbrev pub table : ℕ → List ℕ
table t = t ∷ (t + 10) ∷ []

abbrev one_row : ℕ → SqlQueryResponseResultSetData ℕ
one_row start = record {
  result_set_handle = 0;
  num_columns = 2;
  num_rows = 1;
  num_rows_in_message = 1;
  columns = [];
  data_columns = (start ∷ []) ∷ ((start + 10) ∷ []) ∷ [];
}

-- The world is the last message; the database answers with it.
abbrev pub wire : Wire Bytes ℕ Bytes
wire = record {
  write_message = λ kind m w. (none, m);
  read_message = λ w. (ok w, w);
  close_socket = λ w. (none, w);
  cancelled = λ n w. none;
  marshal = λ request. ok (message_of request);
  decode_base = λ m. ok (record { status = lit "ok"; response_data = m; exception = none });
  raw_text = λ raw. raw;
  decode_public_key =
      λ raw. ok (record { public_key_pem = []; public_key_modulus = []; public_key_exponent = [] });
  decode_auth = λ raw. ok (record {
    session_id = pos 1;
    protocol_version = pos 2;
    release_version = lit "7.1.0";
    database_name = lit "db";
    product_name = lit "EXASolution";
    max_data_message_size = pos 67108864;
    max_identifier_length = pos 128;
    max_varchar_length = pos 2000000;
    identifier_quote_string = lit "'";
    time_zone = lit "EUROPE/BERLIN";
    time_zone_behavior = lit "INVALID SHIFT AMBIGUOUS ST";
  });
  decode_queries = λ raw. ok (record { num_results = 1; results = raw ∷ [] });
  decode_prepared = λ raw. ok (record { statement_handle = 7; num_columns = 0; columns = [] });
  decode_result_set = λ raw. ok (record { result_type = lit "resultSet"; result_set = one_row 0 });
  decode_fetched = λ raw. ok (one_row (position_of raw));
  decode_row_count = λ raw. ok (record { result_type = lit "rowCount"; row_count = pos 1 });
  compress = λ m. ok m;
  uncompress = λ m. ok m;
}

abbrev pub host : Host
host = record {
  os_user = some (lit "me");
  go_os = lit "linux";
  go_version = lit "go1.19";
  encrypt = λ key password. some password;
}

abbrev pub config : Config
config = record {
  user = lit "sys";
  password = lit "exasol";
  access_token = [];
  refresh_token = [];
  host = lit "localhost";
  port = pos 8563;
  params = [];
  api_version = pos 2;
  client_name = lit "Go client";
  client_version = [];
  schema = [];
  autocommit = false;
  fetch_size = pos 2000;
  query_timeout = pos 0;
  compression = true;
  result_set_max_rows = pos 0;
  encryption = true;
  validate_server_certificate = true;
  certificate_fingerprint = [];
}

abbrev pub connection : Connection Bytes
connection = record { config = config; connected = true; is_closed = false; world = [] }

abbrev pub IsConnected : Connection Bytes → Type 0
IsConnected c = c.connected ≡ true

table_rows : (start : ℕ) → HoldsRows 2 table start 1 (one_row start).data_columns
table_rows start zero zero hi hr = ground arith
table_rows start (suc zero) zero hi hr = ground arith
table_rows start (suc (suc i)) zero hi hr = absurd (omega arith)
table_rows start i (suc r) hi hr = absurd (omega arith)

-- The database keeps its promise.
pub server : Serves wire IsConnected 0 3 2 table
unfolding send
server = record {
  row_length = λ t h. refl;
  serve = λ c start p h. (
    one_row start,
    record c { world = start ∷ [] },
    ground (arith, read_request-to_json ℕ (fetch_command 0 start (times c.config.fetch_size 1024))),
    p,
    omega arith,
    omega arith,
    table_rows start,
  );
}

-- Three rows, none of which is in the first message.
abbrev pub results : QueryResults ℕ
results = record {
  result_data = record {
    result_set_handle = 0;
    num_columns = 2;
    num_rows = 3;
    num_rows_in_message = 0;
    columns = [];
    data_columns = [];
  };
  fetched_rows = 0;
  total_row_pointer = 0;
  row_pointer = 0;
}

abbrev pub column : Bytes → SqlQueryColumn
column name = record {
  name = name;
  data_type = record {
    type = lit "DECIMAL";
    precision = none;
    scale = none;
    size = none;
    character_set = none;
    with_local_time_zone = none;
    fraction = none;
    srid = none;
  };
}
