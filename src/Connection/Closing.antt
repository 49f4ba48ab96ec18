-- ===== src/Connection/Closing.antt =====
-- What `Close` leaves behind.
use go_exasol.Base.{true, false, ◌≡◌, ◌≢◌, Bytes, List, arith}
use go_exasol.Connection.Frame.{SameSession, send_only-SameSession}
use go_exasol.Connection.Query.{
  Statement, close, close_websocket, query, exec_without_import, prepare_context,
}
use go_exasol.Connection.Send.{send_only}
use go_exasol.Connection.{Connection}
use go_exasol.Errors.{bad_conn}
use go_exasol.Result.{err, panic}
use go_exasol.Statement.{statement_close}
use go_exasol.Transaction.{Transaction, begin, finish}
use go_exasol.Types.{disconnect_command}
use go_exasol.Wire.{Wire, Context, background}

module _ {World V Raw : Type 0} (wire : Wire World V Raw) where
  disconnected-SameSession :
      (c : Connection World)
      → SameSession
          (record c { is_closed = true })
          (send_only wire background disconnect_command (record c { is_closed = true })).1
  disconnected-SameSession c =
      send_only-SameSession wire background disconnect_command (record c { is_closed = true })

  -- A `Close` that returns, with an error or without, leaves a closed connection and no websocket.
  pub close-closed :
      (c : Connection World)
      → (close wire c).0 ≢ panic
      → ((close wire c).1.is_closed ≡ true) × ((close wire c).1.connected ≡ false)
  unfolding close close_websocket
  close-closed c ne = ground (arith, disconnected-SameSession c)

  -- After that every statement and every transaction is refused as a bad connection, with nothing
  -- sent and nothing changed.
  pub closed_refuses :
      (c : Connection World) (ctx : Context) (text : Bytes) (args : List V) (s : Statement)
      (t : Transaction)
      → (close wire c).0 ≢ panic
      → t.active ≡ true
      → let d = (close wire c).1 in
        (query wire ctx text args d ≡ (err bad_conn, d))
        × (exec_without_import wire ctx text args d ≡ (err bad_conn, d))
        × (prepare_context wire ctx text d ≡ (err bad_conn, d))
        × (statement_close wire s d ≡ (err bad_conn, d))
        × (begin d ≡ (err bad_conn, d))
        × (finish wire text t d ≡ (err bad_conn, t, d))
  closed_refuses c ctx text args s t ne active = refused (close wire c).1 (close-closed c ne).0
    where
      refused :
          (d : Connection World)
          → d.is_closed ≡ true
          → (query wire ctx text args d ≡ (err bad_conn, d))
            × (exec_without_import wire ctx text args d ≡ (err bad_conn, d))
            × (prepare_context wire ctx text d ≡ (err bad_conn, d))
            × (statement_close wire s d ≡ (err bad_conn, d))
            × (begin d ≡ (err bad_conn, d))
            × (finish wire text t d ≡ (err bad_conn, t, d))
      refused d h =
          unfold query exec_without_import prepare_context statement_close begin finish in
          (rw h, rw h, rw h, rw h, rw h, ground arith)

  -- A second `Close` of a connection panics: it calls the websocket that the first one set to nil.
  pub close_twice :
      (c : Connection World) → (close wire c).0 ≢ panic → (close wire (close wire c).1).0 ≡ panic
  close_twice c ne = without_websocket (close wire c).1 (close-closed c ne).1
    where
      without_websocket : (d : Connection World) → d.connected ≡ false → (close wire d).0 ≡ panic
      without_websocket d h =
          unfold close close_websocket in ground (arith, disconnected-SameSession d)
