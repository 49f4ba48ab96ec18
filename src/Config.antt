-- ===== src/Config.antt =====
-- internal/config/config.go: the settings that a connection works with.
use go_exasol.Base.Int.{ℤ}
use go_exasol.Base.{Bool, List, Bytes}

pub record Config : Type 0 where
  pub user : Bytes
  pub password : Bytes
  pub access_token : Bytes
  pub refresh_token : Bytes
  pub host : Bytes
  pub port : ℤ
  pub params : List (Bytes × Bytes)
  pub api_version : ℤ
  pub client_name : Bytes
  pub client_version : Bytes
  pub schema : Bytes
  pub autocommit : Bool
  pub fetch_size : ℤ
  pub query_timeout : ℤ
  pub compression : Bool
  pub result_set_max_rows : ℤ
  pub encryption : Bool
  pub validate_server_certificate : Bool
  pub certificate_fingerprint : Bytes
