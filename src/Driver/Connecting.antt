-- ===== src/Driver/Connecting.antt =====
-- driver.go, lines 51 to 73: a connector, and how it opens a connection.
use go_exasol.Base.{true, false}
use go_exasol.Config.{Config}
use go_exasol.Connection.Connect.{Network, connect}
use go_exasol.Connection.Login.{Host, login}
use go_exasol.Connection.{Connection, ◌>>◌}
use go_exasol.Result.{Result}
use go_exasol.Wire.{Wire, Context}

pub record Connector : Type 0 where
  pub config : Config

-- The connection that a connector starts from.
abbrev pub unconnected : {World : Type 0} → Connector → World → Connection World
unconnected connector w = record {
  config = connector.config;
  connected = false;
  is_closed = true;
  world = w;
}

module _ {World V Raw : Type 0} (wire : Wire World V Raw) (host : Host)
    (network : Network World) where
  -- `Connector.Connect`: the connection behind the call is what it returns where it succeeds.
  unfoldable pub connect_connector :
      Connector → Context → World → Result (Unit {0}) × Connection World
  connect_connector connector ctx w =
      (do connect network; login wire host ctx) (unconnected connector w)
