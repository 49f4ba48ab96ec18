-- ===== src/Connection/Login.antt =====
-- `Login` of pkg/connection/connection.go, lines 294 to 399. The operating system's user, the
-- runtime's names and the RSA encryption of the password (hex, `ParseUint`, PKCS #1 v1.5, base64)
-- are a parameter.
use go_exasol.Base.{Bool, true, false, [], ◌++◌, Option, none, some, Bytes, lit, if◌then◌else◌}
use go_exasol.Config.{Config}
use go_exasol.Connection.Send.{send, send_only}
use go_exasol.Connection.{Connection, M, return, lift, ◌>>=◌, ◌>>◌}
use go_exasol.Dsn.{is_empty}
use go_exasol.Errors.{bad_conn, wrapped}
use go_exasol.Result.{Result, ok, err, panic}
use go_exasol.Types.{
  AuthCommand, PublicKeyResponse, login_command, login_token_command, auth_command,
}
use go_exasol.Wire.{Wire, Context}

pub record Host : Type 0 where
  -- `user.Current`: `none` for an error or a nil user
  pub os_user : Option Bytes
  -- `runtime.GOOS` and `runtime.Version`
  pub go_os : Bytes
  pub go_version : Bytes
  -- the password under the server's key, in base64
  pub encrypt : PublicKeyResponse → Bytes → Option Bytes

-- `version.DriverVersion`
abbrev pub driver_version : Bytes
driver_version = lit "v1.0.3"

-- `c.Config.Compression = b`
abbrev pub set_compression : {World : Type 0} → Bool → Connection World → Connection World
set_compression b c = record c { config = record (c.config) { compression = b } }

unfoldable pub auth_request : Host → Config → Bool → AuthCommand
auth_request host config compression = record {
  username = [];
  password = [];
  access_token = [];
  refresh_token = [];
  use_compression = false;
  client_name = config.client_name;
  driver_name = lit "exasol-driver-go " ++ driver_version;
  client_os = host.go_os;
  client_os_username = [];
  client_version = lit "(unknown version)";
  client_runtime = host.go_version;
  attributes = record {
    autocommit = config.autocommit;
    current_schema = config.schema;
    compression_enabled = compression;
    query_timeout = config.query_timeout;
  };
}

abbrev pub or_bad_conn : Option Bytes → Result Bytes
or_bad_conn none = err bad_conn
or_bad_conn (some b) = ok b

-- `fmt.Errorf("<text>: %w", err)`
abbrev pub with_context {ℓ} : {A : Type ℓ} → Bytes → Result A → Result A
with_context text (ok a) = ok a
with_context text (err e) = err (wrapped text e)
with_context text panic = panic

abbrev pub with_os_user : Option Bytes → AuthCommand → AuthCommand
with_os_user none auth = auth
with_os_user (some name) auth = record auth { client_os_username = name }

-- From the answer to the authentication on.
abbrev pub logged_in :
    {World A : Type 0} → Bool → Result A × Connection World → Result (Unit {0}) × Connection World
logged_in compression (ok response, c) =
    (ok tt, record (set_compression compression c) { is_closed = false })
logged_in compression (err e, c) = (
  err (wrapped (lit "failed to login") e),
  record (set_compression compression c) { is_closed = true },
)
logged_in compression (panic, c) = (panic, c)

module _ {World V Raw : Type 0} (wire : Wire World V Raw) (host : Host) where
  unfoldable pub prepare_login_via_password : Context → M World Bytes
  prepare_login_via_password ctx c =
      (do
        key ← send wire ctx (login_command c.config.api_version) wire.decode_public_key
        lift (or_bad_conn (host.encrypt key c.config.password)))
        c

  unfoldable pub prepare_login_via_token : Context → M World (Unit {0})
  prepare_login_via_token ctx c =
      send_only wire ctx (login_token_command c.config.api_version) (set_compression false c)

  via_token : Bytes → Context → M World (Unit {0})
  unfolding prepare_login_via_token
  via_token text ctx c = let (r, c') = prepare_login_via_token ctx c in (with_context text r, c')

  unfoldable pub pre_login : Context → Bool → M World AuthCommand
  unfolding via_token prepare_login_via_password auth_request
  pre_login ctx compression c =
      let auth = auth_request host c.config compression in
      if is_empty c.config.access_token
      then (if is_empty c.config.refresh_token
          then (do
            password ← prepare_login_via_password ctx
            return (record auth { username = c.config.user; password = password }))
              c
          else (do
            via_token (lit "refresh token login failed") ctx
            return (record auth { refresh_token = c.config.refresh_token }))
              c)
      else (do
        via_token (lit "access token login failed") ctx
        return (record auth { access_token = c.config.access_token }))
          c

  unfoldable pub login : Context → M World (Unit {0})
  login ctx c =
      (do
        auth ← pre_login ctx c.config.compression
        λ d.
            logged_in c.config.compression
              (send wire ctx (auth_command (with_os_user host.os_user auth)) wire.decode_auth d))
        (set_compression false c)
