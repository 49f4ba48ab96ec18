-- ===== src/Lifecycle/Open.antt =====
-- What holds of a connection as long as it lives.
use go_exasol.Base.{◌≡◌, ◌≢◌, refl, ◌∙◌, true, false, List, Bytes, arith}
use go_exasol.Connection.Closing.{close-closed}
use go_exasol.Connection.Connect.{Network}
use go_exasol.Connection.Frame.{SameSession, callback-SameSession, send_only-SameSession}
use go_exasol.Connection.Login.{Host}
use go_exasol.Connection.Query.{Statement, query, prepare_context, close, close_websocket}
use go_exasol.Connection.{Connection}
use go_exasol.Driver.Connecting.{Connector, connect_connector}
use go_exasol.Driver.Opening.{connect_connector-IsOpen}
use go_exasol.Errors.{bad_conn}
use go_exasol.Hosts.{resolve_hosts}
use go_exasol.Import.{Machine, Schedule, exec}
use go_exasol.Lifecycle.Frames.{
  query_context-KeepsSession, exec_context-SameSession, query-KeepsSession, exec-SameSession,
  prepare_context-KeepsSession, finish-SameSession,
}
use go_exasol.Lifecycle.Handles.{
  statement_query_context-KeepsSession, statement_exec_context-KeepsSession,
  statement_query-KeepsSession, statement_exec-KeepsSession, statement_close-KeepsSession,
  next-KeepsSession, close_results-KeepsSession,
}
use go_exasol.Lifecycle.{Step, Reaches}
use go_exasol.Result.{ok, err, panic}
use go_exasol.Statement.{statement_close}
use go_exasol.Transaction.{Transaction, begin, finish}
use go_exasol.Types.{disconnect_command}
use go_exasol.Wire.{Wire, Context, background}

-- What a call may do to a session: it keeps the configuration, does not open what is closed, and
-- does not lose the socket of what is open.
record Ages {World : Type 0} (c d : Connection World) : Type 0 where
  pub same_config : d.config ≡ c.config
  pub stays_closed : c.is_closed ≡ true → d.is_closed ≡ true
  pub keeps_socket :
      (c.is_closed ≡ false → c.connected ≡ true) → d.is_closed ≡ false → d.connected ≡ true

module _ {World : Type 0} where
  SameSession-Ages : (c d : Connection World) → SameSession c d → Ages c d
  SameSession-Ages c d h = record {
    same_config = h.config;
    stays_closed = λ k. h.is_closed ∙ k;
    keeps_socket = λ k o. ground arith;
  }

  Ages-refl : (c : Connection World) → Ages c c
  Ages-refl c = record { same_config = refl; stays_closed = λ k. k; keeps_socket = λ k. k }

  Ages-trans : (c d e : Connection World) → Ages c d → Ages d e → Ages c e
  Ages-trans c d e h k = record {
    same_config = k.same_config ∙ h.same_config;
    stays_closed = λ x. k.stays_closed (h.stays_closed x);
    keeps_socket = λ x. k.keeps_socket (h.keeps_socket x);
  }

module _ {World V Raw Net : Type 0} (wire : Wire World V Raw) (machine : Machine Net) where
  close-config :
      (c : Connection World)
      → ((close wire c).1.config ≡ c.config) × ((close wire c).1.is_closed ≡ true)
  unfolding close close_websocket
  close-config c = ground (
    arith,
    send_only-SameSession wire background disconnect_command (record c { is_closed = true }),
  )

  close-Ages : (c : Connection World) → Ages c (close wire c).1
  close-Ages c = record {
    same_config = (close-config c).0;
    stays_closed = λ k. (close-config c).1;
    keeps_socket = λ k o. absurd (let h = (close-config c).1 in cc);
  }

  begin-Ages : (c : Connection World) → Ages c (begin c).1
  begin-Ages c = SameSession-Ages c _ (unfold begin in ground arith)

  Step-Ages : {c d : Connection World} → Step wire machine c d → Ages c d
  Step-Ages (Step.query_step ctx text args c) =
      SameSession-Ages c _ (query-KeepsSession wire ctx text args c)
  Step-Ages (Step.query_context_step ctx text args c) =
      SameSession-Ages c _ (query_context-KeepsSession wire ctx text args c)
  Step-Ages (Step.exec_context_step s text args c n) =
      SameSession-Ages c _ (exec_context-SameSession wire machine s text args c n)
  Step-Ages (Step.statement_query_context_step s ctx args c) =
      SameSession-Ages c _ (statement_query_context-KeepsSession wire s ctx args c)
  Step-Ages (Step.statement_exec_context_step s ctx args c) =
      SameSession-Ages c _ (statement_exec_context-KeepsSession wire s ctx args c)
  Step-Ages (Step.exec_step s text args c n) =
      SameSession-Ages c _ (exec-SameSession wire machine s text args c n)
  Step-Ages (Step.prepare_step ctx text c) =
      SameSession-Ages c _ (prepare_context-KeepsSession wire ctx text c)
  Step-Ages (Step.statement_query_step s args c) =
      SameSession-Ages c _ (statement_query-KeepsSession wire s args c)
  Step-Ages (Step.statement_exec_step s args c) =
      SameSession-Ages c _ (statement_exec-KeepsSession wire s args c)
  Step-Ages (Step.statement_close_step s c) =
      SameSession-Ages c _ (statement_close-KeepsSession wire s c)
  Step-Ages (Step.begin_step c) = begin-Ages c
  Step-Ages (Step.finish_step text t c) = SameSession-Ages c _ (finish-SameSession wire text t c)
  Step-Ages (Step.next_step width results c) =
      SameSession-Ages c _ (next-KeepsSession wire width results c)
  Step-Ages (Step.close_results_step results c) =
      SameSession-Ages c _ (close_results-KeepsSession wire results c)
  Step-Ages (Step.close_step c) = close-Ages c
  Step-Ages (Step.receiver_step read c) = SameSession-Ages c _ (callback-SameSession wire read c)

  Reaches-Ages : {c d : Connection World} → Reaches wire machine c d → Ages c d
  Reaches-Ages (Reaches.here c) = Ages-refl c
  Reaches-Ages (Reaches.step {c} {d} {e} s r) = Ages-trans c d e (Step-Ages s) (Reaches-Ages r)

  -- From a connection that a connector opened, any calls in any order, with receivers that cancelled
  -- requests left behind reading between them, lead to a connection that has the connector's
  -- settings, and has its websocket unless it is closed.
  pub opened_stays_connected :
      (host : Host) (network : Network World) (connector : Connector) (ctx : Context) (w : World)
      {hosts : List Bytes} {c d : Connection World}
      → resolve_hosts connector.config.host ≡ ok hosts
      → connect_connector wire host network connector ctx w ≡ (ok tt, c)
      → Reaches wire machine c d
      → (d.config ≡ connector.config) × (d.is_closed ≡ false → d.connected ≡ true)
  opened_stays_connected host network connector ctx w resolved opened r =
      let o = connect_connector-IsOpen wire host network connector ctx w resolved opened in
      let h = Reaches-Ages r in (h.same_config ∙ o.same_config, h.keeps_socket (λ k. o.connected))

  -- A connection that `Close` returned from stays closed, whatever is called and whichever
  -- receivers still run behind it, and refuses every query, statement, import and transaction, the
  -- closing of a prepared statement and the end of a transaction that was begun, as a bad connection
  -- with nothing sent.
  pub closed_stays_refused :
      (c : Connection World) {d : Connection World} (ctx : Context) (s : Schedule) (text : Bytes)
      (args : List V) (n : Net) (prepared : Statement) (begun : Transaction)
      → (close wire c).0 ≢ panic
      → begun.active ≡ true
      → Reaches wire machine (close wire c).1 d
      → (query wire ctx text args d ≡ (err bad_conn, d))
        × (exec wire machine s text args d n ≡ (err bad_conn, d, n))
        × (prepare_context wire ctx text d ≡ (err bad_conn, d))
        × (begin d ≡ (err bad_conn, d))
        × (statement_close wire prepared d ≡ (err bad_conn, d))
        × (finish wire text begun d ≡ (err bad_conn, begun, d))
  unfolding query exec prepare_context begin statement_close finish
  closed_stays_refused c ctx s text args n prepared begun returned active r =
      let h = (Reaches-Ages r).stays_closed (close-closed wire c returned).0 in
      (simp h, simp h, simp h, simp h, simp h, ground arith)
