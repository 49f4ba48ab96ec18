-- ===== src/Tests/LifecycleTests.antt =====
-- The theorems on the life of a connection, at a cluster of which one host answers.
use go_exasol.Base.{ap, ◌≡◌, ◌≢◌, refl, true, false, [], Bytes, lit}
use go_exasol.Connection.Query.{query, prepare_context, close}
use go_exasol.Connection.Send.{send_only}
use go_exasol.Connection.{Connection}
use go_exasol.Driver.Connecting.{connect_connector}
use go_exasol.Errors.{bad_conn}
use go_exasol.Import.{exec}
use go_exasol.Lifecycle.Open.{opened_stays_connected, closed_stays_refused}
use go_exasol.Lifecycle.{Step, Reaches}
use go_exasol.Result.{err, panic}
use go_exasol.Tests.HostTests.{network, cluster, connector, three_hosts, connects}
use go_exasol.Tests.ProxySamples.{machine, schedule, no_socket}
use go_exasol.Statement.{statement_close}
use go_exasol.Tests.Samples.{wire, host, connection}
use go_exasol.Tests.SessionTests.{without_parameters}
use go_exasol.Transaction.{begin, finish}
use go_exasol.Wire.{background}

-- The connection that the connector opens.
abbrev opened : Connection Bytes
opened = (connect_connector wire host network connector background []).1

-- A query on it, and an import.
abbrev queried : Connection Bytes
queried = (query wire background (lit "SELECT 1") [] opened).1

abbrev imported : Connection Bytes
imported = (exec wire machine schedule (lit "DELETE FROM t") [] queried no_socket).1

opened_stays_connected_example :
    (imported.config ≡ cluster) × (imported.is_closed ≡ false → imported.connected ≡ true)
opened_stays_connected_example =
    opened_stays_connected wire machine host network connector background [] three_hosts
      (ap (λ r. (r, opened)) connects)
      (Reaches.step (Step.query_step background (lit "SELECT 1") [] opened) (
        Reaches.step (Step.exec_step schedule (lit "DELETE FROM t") [] queried no_socket)
          (Reaches.here imported)))

abbrev closed : Connection Bytes
closed = (close wire connection).1

close_returns : (close wire connection).0 ≢ panic
unfolding close send_only
close_returns = λ e. cc

closed_stays_refused_example :
    (query wire background (lit "SELECT 1") [] (begin closed).1 ≡ (err bad_conn, (begin closed).1))
    × (exec wire machine schedule (lit "SELECT 1") [] (begin closed).1 no_socket
        ≡ (err bad_conn, (begin closed).1, no_socket))
    × (prepare_context wire background (lit "SELECT 1") (begin closed).1
        ≡ (err bad_conn, (begin closed).1))
    × (begin (begin closed).1 ≡ (err bad_conn, (begin closed).1))
    × (statement_close wire without_parameters (begin closed).1 ≡ (err bad_conn, (begin closed).1))
    × (finish wire (lit "SELECT 1") (record { active = true }) (begin closed).1
        ≡ (err bad_conn, record { active = true }, (begin closed).1))
closed_stays_refused_example =
    closed_stays_refused wire machine connection background schedule (lit "SELECT 1") [] no_socket
      without_parameters (record { active = true }) close_returns refl
      (Reaches.step (Step.begin_step closed) (Reaches.here (begin closed).1))
