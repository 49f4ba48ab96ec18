-- ===== src/Lifecycle/Frames.antt =====
-- The methods of a connection and of its transactions leave the session alone.
use go_exasol.Connection.Send.{send, send_only}
use go_exasol.Base.{ℕ, refl, List, [], ◌∷◌, Bytes, arith}
use go_exasol.Connection.Frame.{
  SameSession, continue-SameSession, send-SameSession, send_only-SameSession,
}
use go_exasol.Connection.Query.{
  query_context, simple_exec, non_empty, create_prepared_statement, close_prepared_statement,
  run_prepared, execute_prepared_statement, execute, query, prepare_context,
}
use go_exasol.Connection.{Connection, M, continue}
use go_exasol.Import.{
  exec_values, exec_context, Machine, Schedule, exec, run_statement, get_updated_query, with_import,
  new_import_statement, ImportStatement,
}
use go_exasol.Prepared.{NamedValue, named_values_to_values, prepare_command}
use go_exasol.Result.{Result, ok, err, panic}
use go_exasol.Transaction.{Transaction, finish}
use go_exasol.Types.{
  create_prepared_statement_command, SqlQueriesResponse, CreatePreparedStatementResponse,
  SqlQueryColumn, sql_command, close_prepared_statement_command, execute_prepared_statement_command,
}
use go_exasol.Wire.{Wire, Context, background}

module _ {World : Type 0} where
  -- A call that leaves the session alone.
  abbrev pub KeepsSession : {A : Type 0} → M World A → Type 0
  KeepsSession m = (c : Connection World) → SameSession c (m c).1

  pub same : (c : Connection World) → SameSession c c
  same c = record { config = refl; connected = refl; is_closed = refl }

module _ {World V Raw : Type 0} (wire : Wire World V Raw) where
  pub after :
      {A B : Type 0} (r : Result A × Connection World) (f : A → M World B) (c : Connection World)
      → SameSession c r.1
      → ((a : A) → KeepsSession (f a))
      → SameSession c (continue r f).1
  after r f c h k = continue-SameSession wire c r f h k

  non_empty-KeepsSession : (r : SqlQueriesResponse Raw) → KeepsSession (non_empty wire r)
  non_empty-KeepsSession r c = ground arith

  simple_exec-KeepsSession :
      (ctx : Context) (text : Bytes) → KeepsSession (simple_exec wire ctx text)
  unfolding simple_exec
  simple_exec-KeepsSession ctx text c =
      let request = sql_command text c.config.result_set_max_rows in
      after (send wire ctx request wire.decode_queries c) (non_empty wire) c
        (send-SameSession wire ctx request wire.decode_queries c) non_empty-KeepsSession

  pub run_prepared-KeepsSession :
      (ctx : Context) (handle : ℕ) (columns : List SqlQueryColumn) (args : List V)
      → KeepsSession (run_prepared wire ctx handle columns args)
  unfolding run_prepared
  run_prepared-KeepsSession ctx handle columns args c =
      after (prepare_command handle c.config.result_set_max_rows columns args, c)
        (λ command d.
          continue
            (send wire ctx (execute_prepared_statement_command command) wire.decode_queries d)
            (non_empty wire))
        c (same c)
        λ command d.
          after (send wire ctx (execute_prepared_statement_command command) wire.decode_queries d)
            (non_empty wire) d
            (send-SameSession wire ctx (execute_prepared_statement_command command)
              wire.decode_queries d)
            non_empty-KeepsSession

  execute_prepared_statement-KeepsSession :
      (ctx : Context) (s : CreatePreparedStatementResponse) (args : List V)
      → KeepsSession (execute_prepared_statement wire ctx s args)
  unfolding execute_prepared_statement close_prepared_statement
  execute_prepared_statement-KeepsSession ctx s args c =
      let request = close_prepared_statement_command s.statement_handle in
      after (run_prepared wire ctx s.statement_handle s.columns args c)
        (λ r d. continue (send_only wire ctx request d) λ u e. (ok r, e)) c
        (run_prepared-KeepsSession ctx s.statement_handle s.columns args c)
        λ r d.
          after (send_only wire ctx request d) (λ u e. (ok r, e)) d
            (send_only-SameSession wire ctx request d) (λ u. same)

  execute-KeepsSession :
      (ctx : Context) (text : Bytes) (args : List V) → KeepsSession (execute wire ctx text args)
  unfolding execute create_prepared_statement
  execute-KeepsSession ctx text [] c = simple_exec-KeepsSession ctx text c
  execute-KeepsSession ctx text (arg ∷ args) c =
      after (send wire ctx (create_prepared_statement_command text) wire.decode_prepared c)
        (λ response. execute_prepared_statement wire ctx response (arg ∷ args)) c
        (send-SameSession wire ctx (create_prepared_statement_command text) wire.decode_prepared c)
        λ response. execute_prepared_statement-KeepsSession ctx response (arg ∷ args)

  pub query-KeepsSession :
      (ctx : Context) (text : Bytes) (args : List V) → KeepsSession (query wire ctx text args)
  unfolding query
  query-KeepsSession ctx text args c = ground (arith, execute-KeepsSession ctx text args c)

  pub run_statement-KeepsSession :
      (ctx : Context) (text : Bytes) (args : List V)
      → KeepsSession (run_statement wire ctx text args)
  unfolding run_statement
  run_statement-KeepsSession ctx text args c = ground (arith, execute-KeepsSession ctx text args c)

  pub prepare_context-KeepsSession :
      (ctx : Context) (text : Bytes) → KeepsSession (prepare_context wire ctx text)
  unfolding prepare_context create_prepared_statement
  prepare_context-KeepsSession ctx text c = ground (
    arith,
    send-SameSession wire ctx (create_prepared_statement_command text) wire.decode_prepared c,
  )

  pub query_context-KeepsSession :
      (ctx : Context) (text : Bytes) (args : List (NamedValue V))
      → KeepsSession (query_context wire ctx text args)
  unfolding query_context
  query_context-KeepsSession ctx text args c =
      after (named_values_to_values args, c) (query wire ctx text) c (same c)
        (query-KeepsSession ctx text)

  pub finish-SameSession :
      (text : Bytes) (t : Transaction) (c : Connection World)
      → SameSession c (finish wire text t c).2
  unfolding finish
  finish-SameSession text t c = ground (arith, simple_exec-KeepsSession background text c)

module _ {World V Raw Net : Type 0} (wire : Wire World V Raw) (machine : Machine Net) where
  with_import-SameSession :
      (s : Schedule) (args : List V) (r : Result (ImportStatement Net) × Net) (c : Connection World)
      → SameSession c (with_import wire machine s args r c).1
  with_import-SameSession s args (ok i, n) c =
      run_statement-KeepsSession wire s.context (get_updated_query machine i) args c
  with_import-SameSession s args (err e, n) c = same c
  with_import-SameSession s args (panic, n) c = same c

  pub exec-SameSession :
      (s : Schedule) (text : Bytes) (args : List V) (c : Connection World) (n : Net)
      → SameSession c (exec wire machine s text args c n).1
  unfolding exec
  exec-SameSession s text args c n = ground (
    arith,
    run_statement-KeepsSession wire s.context text args c,
    with_import-SameSession s args (new_import_statement machine text c.config.host c.config.port n)
        c,
  )

  exec_values-SameSession :
      (s : Schedule) (text : Bytes) (values : Result (List V)) (c : Connection World) (n : Net)
      → SameSession c (exec_values wire machine s text values c n).1
  exec_values-SameSession s text (ok values) c n = exec-SameSession s text values c n
  exec_values-SameSession s text (err e) c n = same c
  exec_values-SameSession s text panic c n = same c

  pub exec_context-SameSession :
      (s : Schedule) (text : Bytes) (args : List (NamedValue V)) (c : Connection World) (n : Net)
      → SameSession c (exec_context wire machine s text args c n).1
  unfolding exec_context
  exec_context-SameSession s text args =
      exec_values-SameSession s text (named_values_to_values args)
