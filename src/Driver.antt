-- ===== src/Driver.antt =====
-- driver.go, lines 22 to 50: what `database/sql` calls to open a connection.
pub mod Connecting
pub mod Opening
pub mod Reading
use go_exasol.Base.{Bytes}
use go_exasol.Connection.Connect.{Network}
use go_exasol.Connection.Login.{Host}
use go_exasol.Connection.{Connection}
use go_exasol.Dsn.Parse.{parse_dsn}
use go_exasol.Dsn.{to_internal_config}
use go_exasol.Driver.Connecting.{Connector, connect_connector}
use go_exasol.Result.{Result, ok, err, panic, ◌>>=◌}
use go_exasol.Wire.{Wire, background}

-- `OpenConnector`
unfoldable pub open_connector : Bytes → Result Connector
open_connector input = do
  dsn_config ← parse_dsn input
  config ← to_internal_config dsn_config
  ok (record { config = config })

-- The connection that a successful call leaves.
abbrev pub opened :
    {World : Type 0} → Result (Unit {0}) × Connection World → Result (Connection World)
opened (ok u, c) = ok c
opened (err e, c) = err e
opened (panic, c) = panic

module _ {World V Raw : Type 0} (wire : Wire World V Raw) (host : Host)
    (network : Network World) where
  -- `ExasolDriver.Open`
  unfoldable pub open_connection : Bytes → World → Result (Connection World)
  open_connection input w = do
    connector ← open_connector input
    opened (connect_connector wire host network connector background w)
