-- ===== src/Driver/Opening.antt =====
-- What `Connect` of a connector returns: a connection that is open, to a host that answered.
use mathlib.Core.List.{Memᴰ}
use go_exasol.Base.{◌≡◌, sym, none, ◌∙◌, ap, true, false, List, Bytes}
use go_exasol.Config.{Config}
use go_exasol.Connection.Connect.{Network, connect}
use go_exasol.Connection.Login.{Host, login}
use go_exasol.Connection.Reach.{Outcome, answer, connect-Outcome, connect-config}
use go_exasol.Connection.Session.{login-opens}
use go_exasol.Connection.{Connection, continue}
use go_exasol.Driver.Connecting.{Connector, connect_connector, unconnected}
use go_exasol.Hosts.{resolve_hosts}
use go_exasol.Result.{Result, ok, err, panic}
use go_exasol.Wire.{Wire, Context}

module _ {World V Raw : Type 0} (wire : Wire World V Raw) (host : Host)
    (network : Network World) where
  -- The connection is ready for statements, with the settings of the connector.
  pub record IsOpen (config : Config) (hosts : List Bytes) (d : Connection World) : Type 0 where
    pub connected : d.connected ≡ true
    pub not_closed : d.is_closed ≡ false
    pub same_config : d.config ≡ config
    pub reached : (h : Bytes) × Memᴰ h hosts × ((w : World) × (answer network config h w ≡ none))

  login-IsOpen :
      (ctx : Context) (config : Config) (hosts : List Bytes)
      (p : Result (Unit {0}) × Connection World) {d : Connection World}
      → Outcome network config hosts p
      → p.1.config ≡ config
      → continue p (λ _. login wire host ctx) ≡ (ok tt, d)
      → IsOpen config hosts d
  login-IsOpen ctx config hosts (ok u, c) {d} (h, g) same e =
      let (kept, unclosed, socket) = login-opens wire host ctx c (ap (λ r. r.0) e) in
      record {
        connected = sym (ap (λ r. r.1.connected) e) ∙ socket ∙ h;
        not_closed = sym (ap (λ r. r.1.is_closed) e) ∙ unclosed;
        same_config = sym (ap (λ r. r.1.config) e) ∙ kept ∙ same;
        reached = g;
      }
  login-IsOpen ctx config hosts (err x, c) h same e = absurd (cc)
  login-IsOpen ctx config hosts (panic, c) h same e = absurd h

  -- A connector that connects gives a connection that is open, with the connector's settings as
  -- they were, over a socket to one of the hosts that they resolve to, which answered.
  pub connect_connector-IsOpen :
      (connector : Connector) (ctx : Context) (w : World) {hosts : List Bytes}
      {d : Connection World}
      → resolve_hosts connector.config.host ≡ ok hosts
      → connect_connector wire host network connector ctx w ≡ (ok tt, d)
      → IsOpen connector.config hosts d
  unfolding connect_connector
  connect_connector-IsOpen connector ctx w e opened =
      let c = unconnected connector w in
      login-IsOpen ctx connector.config _ (connect network c) (connect-Outcome network c e)
        (connect-config network c e) opened
