-- ===== src/Dsn.antt =====
-- pkg/dsn/dsn.go, lines 12 to 121, the constructors of driver.go and pkg/dsn/converter.go: the
-- data source name's configuration, its builder and its conversion. `*bool` is an `Option`; a nil
-- map of parameters is the empty one.
pub mod Print
pub mod Parse
pub mod Extract
pub mod Settings
pub mod Plain
pub mod Flags
pub mod Groups
pub mod RoundTrip
pub mod Escaping
use go_exasol.Base.Int.{ℤ, pos}
use go_exasol.Base.{
  Bool, true, false, not, ◌||◌, List, [], ◌∷◌, Option, none, some, Bytes, lit, if◌then◌else◌,
}
use go_exasol.Config.{Config}
use go_exasol.Result.{Result, ok, or_panic, ◌>>=◌}

pub record DsnConfig : Type 0 where
  pub host : Bytes
  pub port : ℤ
  pub user : Bytes
  pub password : Bytes
  pub autocommit : Option Bool
  pub encryption : Option Bool
  pub compression : Option Bool
  pub client_name : Bytes
  pub client_version : Bytes
  pub fetch_size : ℤ
  pub query_timeout : ℤ
  pub validate_server_certificate : Option Bool
  pub certificate_fingerprint : Bytes
  pub schema : Bytes
  pub result_set_max_rows : ℤ
  pub params : List (Bytes × Bytes)
  pub access_token : Bytes
  pub refresh_token : Bytes

-- A string is empty.
abbrev pub is_empty : Bytes → Bool
is_empty [] = true
is_empty (c ∷ s) = false

-- The zero value of `DSNConfig` with the host and port of the constructors.
abbrev local_config : DsnConfig
local_config = record {
  host = lit "localhost";
  port = pos 8563;
  user = [];
  password = [];
  autocommit = none;
  encryption = none;
  compression = none;
  client_name = [];
  client_version = [];
  fetch_size = pos 0;
  query_timeout = pos 0;
  validate_server_certificate = none;
  certificate_fingerprint = [];
  schema = [];
  result_set_max_rows = pos 0;
  params = [];
  access_token = [];
  refresh_token = [];
}

unfoldable pub new_config : Bytes → Bytes → DsnConfig
new_config user password = record local_config { user = user; password = password }

unfoldable pub new_config_with_access_token : Bytes → DsnConfig
new_config_with_access_token token = record local_config { access_token = token }

unfoldable pub new_config_with_refresh_token : Bytes → DsnConfig
new_config_with_refresh_token token = record local_config { refresh_token = token }

-- `DSNConfigBuilder`: each method writes one field through the pointer and returns the builder.
pub data Setting : Type 0 where
  set_compression set_encryption set_autocommit : Bool → Setting
  set_validate_server_certificate : Bool → Setting
  set_certificate_fingerprint set_client_name set_client_version : Bytes → Setting
  set_host set_schema : Bytes → Setting
  set_fetch_size set_query_timeout set_port set_result_set_max_rows : ℤ → Setting

unfoldable pub build : DsnConfig → Setting → DsnConfig
build c (set_compression enabled) = record c { compression = some enabled }
build c (set_encryption enabled) = record c { encryption = some enabled }
build c (set_autocommit enabled) = record c { autocommit = some enabled }
build c (set_validate_server_certificate validate) = record c {
  validate_server_certificate = some validate;
}
build c (set_certificate_fingerprint fingerprint) = record c {
  certificate_fingerprint = fingerprint;
}
build c (set_fetch_size size) = record c { fetch_size = size }
build c (set_query_timeout timeout) = record c { query_timeout = timeout }
build c (set_client_name name) = record c { client_name = name }
build c (set_client_version version) = record c { client_version = version }
build c (set_host host) = record c { host = host }
build c (set_port port) = record c { port = port }
build c (set_result_set_max_rows max_rows) = record c { result_set_max_rows = max_rows }
build c (set_schema schema) = record c { schema = schema }

-- A chain of the builder's methods.
unfoldable pub build_all : DsnConfig → List Setting → DsnConfig
unfolding build
build_all c [] = c
build_all c (s ∷ ss) = build_all (build c s) ss

unfoldable pub to_internal_config : DsnConfig → Result Config
to_internal_config c = do
  let api_version =
      if not (is_empty c.access_token) || not (is_empty c.refresh_token) then pos 3 else pos 2
  autocommit ← or_panic c.autocommit
  compression ← or_panic c.compression
  encryption ← or_panic c.encryption
  validate ← or_panic c.validate_server_certificate
  ok (record {
    user = c.user;
    password = c.password;
    access_token = c.access_token;
    refresh_token = c.refresh_token;
    host = c.host;
    port = c.port;
    params = c.params;
    api_version = api_version;
    client_name = c.client_name;
    client_version = c.client_version;
    schema = c.schema;
    autocommit = autocommit;
    fetch_size = c.fetch_size;
    query_timeout = c.query_timeout;
    compression = compression;
    result_set_max_rows = c.result_set_max_rows;
    encryption = encryption;
    validate_server_certificate = validate;
    certificate_fingerprint = c.certificate_fingerprint;
  })
