-- ===== src/Types.antt =====
-- pkg/types: the requests that the driver sends and the responses that it reads. `V` is the type
-- of the values that cells and arguments hold; `Raw` that of undecoded JSON. Identifiers and counts
-- of rows and columns are numbers.
pub mod Json
pub mod Encode
pub mod Decode
pub mod Requests
pub mod RoundTrip
use go_exasol.Base.Int.{ℤ}
use go_exasol.Base.{ℕ, Bool, List, Option, Bytes}

pub record SqlQueryColumnType : Type 0 where
  pub type : Bytes
  pub precision : Option ℤ
  pub scale : Option ℤ
  pub size : Option ℤ
  pub character_set : Option Bytes
  pub with_local_time_zone : Option Bool
  pub fraction : Option ℤ
  pub srid : Option ℤ

pub record SqlQueryColumn : Type 0 where
  pub name : Bytes
  pub data_type : SqlQueryColumnType

-- The attributes that the driver sets when it logs in; it leaves the others empty.
pub record LoginAttributes : Type 0 where
  pub autocommit : Bool
  pub current_schema : Bytes
  pub compression_enabled : Bool
  pub query_timeout : ℤ

pub record AuthCommand : Type 0 where
  pub username : Bytes
  pub password : Bytes
  pub access_token : Bytes
  pub refresh_token : Bytes
  pub use_compression : Bool
  pub client_name : Bytes
  pub driver_name : Bytes
  pub client_os : Bytes
  pub client_os_username : Bytes
  pub client_version : Bytes
  pub client_runtime : Bytes
  pub attributes : LoginAttributes

-- A nil slice and a slice are told apart, as JSON does.
pub record ExecutePreparedStatementCommand (V : Type 0) : Type 0 where
  pub statement_handle : ℕ
  pub num_columns : ℕ
  pub num_rows : ℕ
  pub columns : List SqlQueryColumn
  pub data_columns : List (Option (List V))
  pub result_set_max_rows : ℤ

-- The commands, each with the fields that the driver fills.
pub data Request (V : Type 0) : Type 0 where
  login_command login_token_command : ℤ → Request V
  auth_command : AuthCommand → Request V
  sql_command : Bytes → ℤ → Request V
  create_prepared_statement_command : Bytes → Request V
  execute_prepared_statement_command : ExecutePreparedStatementCommand V → Request V
  close_prepared_statement_command : ℕ → Request V
  close_result_set_command : List ℕ → Request V
  fetch_command : ℕ → ℕ → ℤ → Request V
  disconnect_command abort_query_command : Request V

pub record Exception : Type 0 where
  pub text : Bytes
  pub sql_code : Bytes

pub record BaseResponse (Raw : Type 0) : Type 0 where
  pub status : Bytes
  pub response_data : Raw
  pub exception : Option Exception

pub record AuthResponse : Type 0 where
  pub session_id : ℤ
  pub protocol_version : ℤ
  pub release_version : Bytes
  pub database_name : Bytes
  pub product_name : Bytes
  pub max_data_message_size : ℤ
  pub max_identifier_length : ℤ
  pub max_varchar_length : ℤ
  pub identifier_quote_string : Bytes
  pub time_zone : Bytes
  pub time_zone_behavior : Bytes

pub record PublicKeyResponse : Type 0 where
  pub public_key_pem : Bytes
  pub public_key_modulus : Bytes
  pub public_key_exponent : Bytes

pub record SqlQueriesResponse (Raw : Type 0) : Type 0 where
  pub num_results : ℕ
  pub results : List Raw

pub record SqlQueryResponseRowCount : Type 0 where
  pub result_type : Bytes
  pub row_count : ℤ

pub record SqlQueryResponseResultSetData (V : Type 0) : Type 0 where
  pub result_set_handle : ℕ
  pub num_columns : ℕ
  pub num_rows : ℕ
  pub num_rows_in_message : ℕ
  pub columns : List SqlQueryColumn
  pub data_columns : List (List V)

pub record SqlQueryResponseResultSet (V : Type 0) : Type 0 where
  pub result_type : Bytes
  pub result_set : SqlQueryResponseResultSetData V

pub record CreatePreparedStatementResponse : Type 0 where
  pub statement_handle : ℕ
  pub num_columns : ℕ
  pub columns : List SqlQueryColumn
