-- ===== src/Lifecycle/Handles.antt =====
-- The methods of prepared statements and of results leave the session alone.
use go_exasol.Base.Int.{times}
use go_exasol.Base.{ℕ, List, [], ◌∷◌, arith}
use go_exasol.Connection.Frame.{send-SameSession, send_only-SameSession}
use go_exasol.Connection.Query.{to_result, Statement, close_prepared_statement, run_prepared}
use go_exasol.Connection.{continue}
use go_exasol.Prepared.{NamedValue, named_values_to_values}
use go_exasol.ResultSet.{to_row, QueryResults, next, refill, close_results}
use go_exasol.Statement.{
  statement_query_context, statement_exec_context, execute_statement, statement_query,
  statement_exec, statement_close,
}
use go_exasol.Types.{fetch_command, close_prepared_statement_command, close_result_set_command}
use go_exasol.Wire.{Wire, Context, background}
use go_exasol.Lifecycle.Frames.{KeepsSession, same, after, run_prepared-KeepsSession}

module _ {World V Raw : Type 0} (wire : Wire World V Raw) where
  pub statement_exec-KeepsSession :
      (s : Statement) (args : List V) → KeepsSession (statement_exec wire s args)
  unfolding statement_exec execute_statement
  statement_exec-KeepsSession s args c =
      ground (arith, run_prepared-KeepsSession wire background s.statement_handle s.columns args c)

  pub statement_query-KeepsSession :
      (s : Statement) (args : List V) → KeepsSession (statement_query wire s args)
  unfolding statement_query execute_statement
  statement_query-KeepsSession s args c =
      ground (arith, run_prepared-KeepsSession wire background s.statement_handle s.columns args c)

  pub statement_query_context-KeepsSession :
      (s : Statement) (ctx : Context) (args : List (NamedValue V))
      → KeepsSession (statement_query_context wire s ctx args)
  unfolding statement_query_context execute_statement
  statement_query_context-KeepsSession s ctx args c =
      let run = run_prepared wire ctx s.statement_handle s.columns in
      after wire (named_values_to_values args, c)
        (λ values d. continue (run values d) λ r e. (to_row wire r, e)) c (same c)
        λ values d.
          after wire (run values d) (λ r e. (to_row wire r, e)) d
            (run_prepared-KeepsSession wire ctx s.statement_handle s.columns values d) (λ r. same)

  pub statement_exec_context-KeepsSession :
      (s : Statement) (ctx : Context) (args : List (NamedValue V))
      → KeepsSession (statement_exec_context wire s ctx args)
  unfolding statement_exec_context execute_statement
  statement_exec_context-KeepsSession s ctx args c =
      let run = run_prepared wire ctx s.statement_handle s.columns in
      after wire (named_values_to_values args, c)
        (λ values d. continue (run values d) λ r e. (to_result wire r, e)) c (same c)
        λ values d.
          after wire (run values d) (λ r e. (to_result wire r, e)) d
            (run_prepared-KeepsSession wire ctx s.statement_handle s.columns values d) (λ r. same)

  pub statement_close-KeepsSession : (s : Statement) → KeepsSession (statement_close wire s)
  unfolding statement_close close_prepared_statement
  statement_close-KeepsSession s c = ground (
    arith,
    send_only-SameSession wire background (close_prepared_statement_command s.statement_handle) c,
  )

  refill-KeepsSession : (results : QueryResults V) → KeepsSession (refill wire results)
  unfolding refill
  refill-KeepsSession results c = ground (
    arith,
    send-SameSession wire background
        (fetch_command results.result_data.result_set_handle results.total_row_pointer
          (times c.config.fetch_size 1024))
        wire.decode_fetched c,
  )

  pub next-KeepsSession :
      (width : ℕ) (results : QueryResults V) → KeepsSession (next wire width results)
  unfolding next
  next-KeepsSession width results c = ground (arith, refill-KeepsSession results c)

  pub close_results-KeepsSession :
      (results : QueryResults V) → KeepsSession (close_results wire results)
  unfolding close_results
  close_results-KeepsSession results c = ground (
    arith,
    send_only-SameSession wire background
        (close_result_set_command (results.result_data.result_set_handle ∷ [])) c,
  )
