-- ===== src/Connection/Connect.antt =====
-- pkg/connection/websocket.go, lines 21 to 59, and `CreateConnection` in
-- pkg/connection/wsconn/wsconn.go: how a connection finds a host that answers.
use go_exasol.Base.{
  ℕ, Bool, true, false, not, ◌||◌, List, [], ◌∷◌, ◌++◌, Option, none, some, Bytes, lit,
  if◌then◌else◌,
}
use go_exasol.Connection.{Connection, M}
use go_exasol.Connection.Tls.{TlsConfig, tls_config}
use go_exasol.Dsn.{is_empty}
use go_exasol.Errors.{Error, wrapped}
use go_exasol.Hosts.Shuffle.{shuffle_hosts}
use go_exasol.Hosts.{resolve_hosts}
use go_exasol.Result.{ok, err, panic}
use go_exasol.Text.Decimal.{show}

-- The fields of a `url.URL` that are set.
pub record Url : Type 0 where
  pub scheme : Bytes
  pub host : Bytes

-- What gorilla/websocket, `math/rand` and `crypto/sha256` do: a dial by a URL and a configuration of
-- TLS, a number drawn at random, `%q` of a URL, and the hash of a text.
pub record Network (World : Type 0) : Type 0 where
  pub dial : Url → TlsConfig → World → Option Error × World
  pub random : World → ℕ × World
  pub quoted : Url → Bytes
  pub sha256 : Bytes → Bytes

module _ {World : Type 0} where
  unfoldable pub get_uri_scheme : Connection World → Bytes
  get_uri_scheme c = if c.config.encryption then lit "wss" else lit "ws"

  -- `url.URL{Scheme: ..., Host: ...}` of a host
  unfoldable pub url_of : Bytes → Connection World → Url
  unfolding get_uri_scheme
  url_of host c = record { scheme = get_uri_scheme c; host = host ++ b':' ∷ show c.config.port }

  module _ (network : Network World) where
    -- `CreateConnection`: `none` where a socket is returned
    unfoldable pub create_connection : Bool → Bytes → Url → World → Option Error × World
    create_connection skip_verify fingerprint url w =
        let (e, w') = network.dial url (tls_config network.sha256 skip_verify fingerprint) w in
        (
          elim e [
            | none ↦ none
            | some x ↦ some (wrapped (lit "failed to connect to URL " ++ network.quoted url) x)
          ],
          w',
        )

    -- `connectToHost`, but for the line that it logs
    unfoldable pub connect_to_host : Url → Connection World → Option Error × World
    unfolding create_connection
    connect_to_host url c =
        let skip_verify =
          not c.config.validate_server_certificate
          || not (is_empty c.config.certificate_fingerprint) in
        create_connection skip_verify c.config.certificate_fingerprint url c.world

    -- The loop over the hosts; `failed` is the variable `err`.
    unfoldable pub try_hosts : List Bytes → Option Error → M World (Unit {0})
    unfolding connect_to_host url_of
    try_hosts [] none c = (ok tt, c)
    try_hosts [] (some e) c = (err e, c)
    try_hosts (host ∷ hosts) failed c =
        let (e, w) = connect_to_host (url_of host c) c in
        elim e [
          | none ↦ (ok tt, record c { world = w; connected = true })
          | some x ↦ try_hosts hosts (some x) (record c { world = w; connected = false })
        ]

    -- `Connect`
    unfoldable pub connect : M World (Unit {0})
    unfolding try_hosts
    connect c = elim (resolve_hosts c.config.host) [
      | ok hosts ↦
          let (shuffled, w) = shuffle_hosts network.random hosts c.world in
          try_hosts shuffled none (record c { world = w })
      | err e ↦ (err e, c)
      | panic ↦ (panic, c)
    ]
