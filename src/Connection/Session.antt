-- ===== src/Connection/Session.antt =====
-- What `Login` does to the connection and to the configuration that it points to.
use go_exasol.Base.{Bool, true, false, [], lit, ◌≡◌, arith}
use go_exasol.Config.{Config}
use go_exasol.Connection.Frame.{SameSession, send-SameSession, send_only-SameSession}
use go_exasol.Connection.Login.{Host, set_compression, pre_login, login, with_os_user, logged_in}
use go_exasol.Connection.Send.{send}
use go_exasol.Connection.{Connection, continue}
use go_exasol.Dsn.{is_empty}
use go_exasol.Errors.{Error, wrapped}
use go_exasol.Result.{Result, ok, err, panic}
use go_exasol.Types.{AuthCommand, auth_command, login_command, login_token_command}
use go_exasol.Wire.{Wire, Context}

module _ {World V Raw : Type 0} (wire : Wire World V Raw) (host : Host) where
  -- The first exchange keeps the session, with compression off.
  pre_login-SameSession :
      (ctx : Context) (b : Bool) (c : Connection World)
      → SameSession
          (set_compression false c)
          (pre_login wire host ctx b (set_compression false c)).1
  unfolding pre_login
  pre_login-SameSession ctx b c =
      let d = set_compression false c in
      ground (
        arith,
        send-SameSession wire ctx (login_command d.config.api_version) wire.decode_public_key d,
        send_only-SameSession wire ctx (login_token_command d.config.api_version) d,
      )

  -- The rest of a login, after the first exchange left `r`.
  rest_of_login :
      Context
      → Connection World
      → Result AuthCommand × Connection World
      → Result (Unit {0}) × Connection World
  rest_of_login ctx c r = continue r λ auth d.
      logged_in c.config.compression
        (send wire ctx (auth_command (with_os_user host.os_user auth)) wire.decode_auth d)

  rest-opens :
      (ctx : Context) (c : Connection World) (r : Result AuthCommand × Connection World)
      → SameSession (set_compression false c) r.1
      → (rest_of_login ctx c r).0 ≡ ok tt
      → ((rest_of_login ctx c r).1.config ≡ c.config)
        × ((rest_of_login ctx c r).1.is_closed ≡ false)
        × ((rest_of_login ctx c r).1.connected ≡ c.connected)
  unfolding rest_of_login
  rest-opens ctx c (ok auth, d) s done = ground (
    arith,
    send-SameSession wire ctx (auth_command (with_os_user host.os_user auth)) wire.decode_auth d,
  )
  rest-opens ctx c (err e, d) s done = cc
  rest-opens ctx c (panic, d) s done = cc

  -- A login that succeeds opens the connection and leaves its configuration as it found it, the
  -- compression flag included.
  pub login-opens :
      (ctx : Context) (c : Connection World)
      → (login wire host ctx c).0 ≡ ok tt
      → ((login wire host ctx c).1.config ≡ c.config)
        × ((login wire host ctx c).1.is_closed ≡ false)
        × ((login wire host ctx c).1.connected ≡ c.connected)
  unfolding login rest_of_login
  login-opens ctx c =
      rest-opens ctx c (pre_login wire host ctx c.config.compression (set_compression false c))
        (pre_login-SameSession ctx c.config.compression c)

  -- A login that the first exchange already ends leaves the compression flag off, whatever it was:
  -- the configuration is the connector's, so that it is off for its later connections too.
  pub login_loses_compression :
      (ctx : Context) (c : Connection World) {e : Error}
      → (pre_login wire host ctx c.config.compression (set_compression false c)).0 ≡ err e
      → ((login wire host ctx c).0 ≡ err e)
        × ((login wire host ctx c).1.config ≡ record (c.config) { compression = false })
        × ((login wire host ctx c).1.is_closed ≡ c.is_closed)
  unfolding login
  login_loses_compression ctx c h = ground (arith, pre_login-SameSession ctx c.config.compression c)

  -- Where the second exchange fails, the login returns its error as a failed login, the configuration
  -- is as it was, the compression flag included, and the connection counts as closed; but its
  -- websocket is left as it is.
  pub login_rejected :
      (ctx : Context) (c d : Connection World) {auth : AuthCommand} {e : Error}
      → pre_login wire host ctx c.config.compression (set_compression false c) ≡ (ok auth, d)
      → (send wire ctx (auth_command (with_os_user host.os_user auth)) wire.decode_auth d).0 ≡ err e
      → ((login wire host ctx c).0 ≡ err (wrapped (lit "failed to login") e))
        × ((login wire host ctx c).1.config ≡ c.config)
        × ((login wire host ctx c).1.is_closed ≡ true)
        × ((login wire host ctx c).1.connected ≡ c.connected)
  unfolding login
  login_rejected ctx c d {auth} h k = ground (
    arith,
    h,
    k,
    pre_login-SameSession ctx c.config.compression c,
    send-SameSession wire ctx (auth_command (with_os_user host.os_user auth)) wire.decode_auth d,
  )

  -- The request that an authentication is made with: one kind of credential, the access token
  -- before the refresh token before the password, and the settings of the configuration.
  pub record IsAuthRequest (config : Config) (compression : Bool) (auth : AuthCommand)
      : Type 0 where
    pub by_access_token :
        is_empty config.access_token ≡ false
        → (auth.access_token ≡ config.access_token)
          × (auth.refresh_token ≡ [])
          × (auth.username ≡ [])
          × (auth.password ≡ [])
    pub by_refresh_token :
        is_empty config.access_token ≡ true
        → is_empty config.refresh_token ≡ false
        → (auth.access_token ≡ [])
          × (auth.refresh_token ≡ config.refresh_token)
          × (auth.username ≡ [])
          × (auth.password ≡ [])
    pub by_password :
        is_empty config.access_token ≡ true
        → is_empty config.refresh_token ≡ true
        → (auth.access_token ≡ []) × (auth.refresh_token ≡ []) × (auth.username ≡ config.user)
    pub attributes :
        (auth.attributes.autocommit ≡ config.autocommit)
        × (auth.attributes.current_schema ≡ config.schema)
        × (auth.attributes.query_timeout ≡ config.query_timeout)
        × (auth.attributes.compression_enabled ≡ compression)
    pub client_name : auth.client_name ≡ config.client_name
    pub client_version : auth.client_version ≡ lit "(unknown version)"

  -- Whenever the first exchange succeeds, the request is built from one kind of credential and from
  -- the configuration; but the configured client version is not in it.
  pub pre_login-IsAuthRequest :
      (ctx : Context) (compression : Bool) (c : Connection World) {auth : AuthCommand}
      → (pre_login wire host ctx compression c).0 ≡ ok auth
      → IsAuthRequest c.config compression auth
  unfolding pre_login
  pre_login-IsAuthRequest ctx compression c h = ground arith
