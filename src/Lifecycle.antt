-- ===== src/Lifecycle.antt =====
-- The life of a connection, from the connector's `Connect` through the calls of `database/sql`: the
-- calls as steps of a relation, one at a time, and between them the receivers that cancelled
-- requests left behind.
pub mod Frames
pub mod Handles
pub mod Open
use go_exasol.Base.{ℕ, List, Bytes}
use go_exasol.Prepared.{NamedValue}
use go_exasol.Connection.Query.{query_context, Statement, query, prepare_context, close}
use go_exasol.Connection.Send.{callback}
use go_exasol.Connection.{Connection}
use go_exasol.Import.{Machine, Schedule, exec, exec_context}
use go_exasol.Result.{Result}
use go_exasol.ResultSet.{QueryResults, next, close_results}
use go_exasol.Statement.{
  statement_query_context, statement_exec_context, statement_query, statement_exec, statement_close,
}
use go_exasol.Transaction.{Transaction, begin, finish}
use go_exasol.Wire.{Wire, Context}

module _ {World V Raw Net : Type 0} (wire : Wire World V Raw) (machine : Machine Net) where
  -- A call of a method of the connection, or of one of its statements, transactions and results,
  -- whatever it returns.
  pub data Step : Connection World → Connection World → Type 0 where
    query_step :
        (ctx : Context) (text : Bytes) (args : List V) (c : Connection World)
        → Step c (query wire ctx text args c).1
    query_context_step :
        (ctx : Context) (text : Bytes) (args : List (NamedValue V)) (c : Connection World)
        → Step c (query_context wire ctx text args c).1
    exec_context_step :
        (s : Schedule) (text : Bytes) (args : List (NamedValue V)) (c : Connection World) (n : Net)
        → Step c (exec_context wire machine s text args c n).1
    exec_step :
        (s : Schedule) (text : Bytes) (args : List V) (c : Connection World) (n : Net)
        → Step c (exec wire machine s text args c n).1
    prepare_step :
        (ctx : Context) (text : Bytes) (c : Connection World)
        → Step c (prepare_context wire ctx text c).1
    statement_query_step :
        (s : Statement) (args : List V) (c : Connection World)
        → Step c (statement_query wire s args c).1
    statement_exec_step :
        (s : Statement) (args : List V) (c : Connection World)
        → Step c (statement_exec wire s args c).1
    statement_query_context_step :
        (s : Statement) (ctx : Context) (args : List (NamedValue V)) (c : Connection World)
        → Step c (statement_query_context wire s ctx args c).1
    statement_exec_context_step :
        (s : Statement) (ctx : Context) (args : List (NamedValue V)) (c : Connection World)
        → Step c (statement_exec_context wire s ctx args c).1
    statement_close_step :
        (s : Statement) (c : Connection World) → Step c (statement_close wire s c).1
    begin_step : (c : Connection World) → Step c (begin c).1
    finish_step :
        (text : Bytes) (t : Transaction) (c : Connection World) → Step c (finish wire text t c).2
    next_step :
        (width : ℕ) (results : QueryResults V) (c : Connection World)
        → Step c (next wire width results c).1
    close_results_step :
        (results : QueryResults V) (c : Connection World) → Step c (close_results wire results c).1
    close_step : (c : Connection World) → Step c (close wire c).1
    -- A receiver reads of which the request was cancelled, so that nobody takes its result.
    receiver_step :
        (read : Raw → Result (Unit {0})) (c : Connection World) → Step c (callback wire read c).1

  -- Any number of calls, one behind the other.
  pub data Reaches : Connection World → Connection World → Type 0 where
    here : (c : Connection World) → Reaches c c
    step : {c d e : Connection World} → Step c d → Reaches d e → Reaches c e
