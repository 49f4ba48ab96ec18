-- ===== src/Transaction.antt =====
-- pkg/connection/transaction.go, and `Begin` of connection.go. A transaction's field is a pointer to
-- the connection that its methods are called with, or nil.
use go_exasol.Base.{Bool, true, false, Bytes, lit, if◌then◌else◌, ◌≡◌, ◌≢◌, arith}
use go_exasol.Connection.Query.{simple_exec}
use go_exasol.Connection.{Connection, M}
use go_exasol.Errors.{bad_conn, err_invalid_conn, err_autocommit_enabled}
use go_exasol.Result.{Result, ok, err, panic}
use go_exasol.Wire.{Wire, background}

-- `active` tells that the pointer is not nil.
pub record Transaction : Type 0 where
  pub active : Bool

unfoldable pub new_transaction : Transaction
new_transaction = record { active = true }

unfoldable pub begin : {World : Type 0} → M World Transaction
unfolding new_transaction
begin c =
    if c.is_closed
    then (err bad_conn, c)
    else if c.config.autocommit
    then (err err_autocommit_enabled, c)
    else (ok new_transaction, c)

-- The error of a call, its value left out.
abbrev without_value : {A : Type 0} → Result A → Result (Unit {0})
without_value (ok a) = ok tt
without_value (err e) = err e
without_value panic = panic

abbrev panicked : {A : Type 0} → Result A → Bool
panicked (ok a) = false
panicked (err e) = false
panicked panic = true

module _ {World V Raw : Type 0} (wire : Wire World V Raw) where
  -- `Commit` and `Rollback` differ in the text alone. A panic leaves the transaction as it was.
  unfoldable pub finish :
      Bytes → Transaction → Connection World → Result (Unit {0}) × Transaction × Connection World
  finish text t c =
      if t.active
      then (if c.is_closed
          then (err bad_conn, t, c)
          else (let (r, c') = simple_exec wire background text c in
              (without_value r, record { active = panicked r }, c')))
      else (err err_invalid_conn, t, c)

  unfoldable pub commit :
      Transaction → Connection World → Result (Unit {0}) × Transaction × Connection World
  unfolding finish
  commit = finish (lit "COMMIT")

  unfoldable pub rollback :
      Transaction → Connection World → Result (Unit {0}) × Transaction × Connection World
  unfolding finish
  rollback = finish (lit "ROLLBACK")

  -- On an open connection a first `Commit` or `Rollback` that returned ends the transaction, also if
  -- it failed: the next one, on whatever became of the connection, is the invalid-connection error
  -- and leaves the connection alone.
  pub finish_once :
      (first second : Bytes) (t : Transaction) (c d : Connection World)
      → c.is_closed ≡ false
      → (finish first t c).0 ≢ panic
      → finish second (finish first t c).1 d ≡ (err err_invalid_conn, record { active = false }, d)
  unfolding finish
  finish_once first second t c d open_connection returned = ground arith
