-- ===== src/Import/Outcomes.antt =====
-- What `exec` comes to, with and without an import.
use go_exasol.Base.{
  ◌≡◌, refl, sym, subst, ap, ◌∙◌, Bool, true, false, List, [], ◌∷◌, ◌++◌, some, Bytes, arith,
}
use go_exasol.Connection.Query.{RowCount, exec_without_import}
use go_exasol.Connection.{Connection}
use go_exasol.Errors.{Error}
use go_exasol.Import.Fresh.{new_import_statement-holds}
use go_exasol.Import.Query.{is_import_query, get_file_paths, get_row_separator, update_import_query}
use go_exasol.Import.{
  Machine, ImportStatement, Schedule, exec, run_statement, opened_paths, upload_files,
  new_import_statement, get_updated_query, wait,
}
use go_exasol.Proxy.Decode.{body_of}
use go_exasol.Proxy.Delivery.{head_of}
use go_exasol.Proxy.Received.{contents, body_of-contents}
use go_exasol.Proxy.Send.{File, response_headers, write}
use go_exasol.Proxy.Success.{Appends, write-Sends, close-Sends}
use go_exasol.Proxy.{close}
use go_exasol.Result.{Result, ok, err, panic}
use go_exasol.Wire.{Wire}

wait_ok :
    {A : Type 0} (first : Bool) (u : Result (Unit {0})) (r : Result A) {a : A}
    → wait first u r ≡ ok a
    → (u ≡ ok tt) × (r ≡ ok a)
wait_ok first (ok u) r e = (refl, e)
wait_ok first (err x) (ok b) e = absurd (cc)
wait_ok true (err x) (err y) e = absurd (cc)
wait_ok false (err x) (err y) e = absurd (cc)
wait_ok first (err x) panic e = absurd (cc)
wait_ok first panic r e = absurd (cc)

module _ {World V Raw Net : Type 0} (wire : Wire World V Raw) (machine : Machine Net) where
  -- A statement that imports no local file is executed as it is, and no proxy is made.
  pub exec-exec_without_import :
      (s : Schedule) (text : Bytes) (args : List V) (c : Connection World) (n : Net)
      → is_import_query text ≡ false
      → exec wire machine s text args c n ≡ (
        (exec_without_import wire s.context text args c).0,
        (exec_without_import wire s.context text args c).1,
        n,
      )
  unfolding exec exec_without_import
  exec-exec_without_import s text args c n h = ground (arith, h)

  exec_both :
      (s : Schedule) (text : Bytes) (args : List V) (c : Connection World) (n n' : Net)
      (i : ImportStatement Net)
      → c.is_closed ≡ false
      → is_import_query text ≡ true
      → new_import_statement machine text c.config.host c.config.port n ≡ (ok i, n')
      → (exec wire machine s text args c n).0
        ≡ wait s.upload_first
            (upload_files machine s.context i).0
            (run_statement wire s.context (get_updated_query machine i) args c).0
  unfolding exec
  exec_both s text args c n n' i opened h created = ground (arith, opened, h, created)

  -- The network behind an import that was started.
  pub exec_import_net :
      (s : Schedule) (text : Bytes) (args : List V) (c : Connection World) (n n' : Net)
      (i : ImportStatement Net)
      → c.is_closed ≡ false
      → is_import_query text ≡ true
      → new_import_statement machine text c.config.host c.config.port n ≡ (ok i, n')
      → (exec wire machine s text args c n).2
        ≡ (close machine.tcp (upload_files machine s.context i).1).net
  unfolding exec
  exec_import_net s text args c n n' i opened h created = ground (arith, opened, h, created)

  module _ (s : Schedule) (i : ImportStatement Net) where
    upload_written :
        {files : List File}
        → opened_paths machine (get_file_paths i.query) ≡ ok files
        → upload_files machine s.context i
          ≡ write machine.tcp s.context files (get_row_separator i.query) i.proxy
    unfolding upload_files
    upload_written e = ground (arith, e)

    upload_failed :
        {x : Error}
        → opened_paths machine (get_file_paths i.query) ≡ err x
        → ¬ ((upload_files machine s.context i).0 ≡ ok tt)
    unfolding upload_files
    upload_failed e = λ done. ground (arith, e, done)

    upload_panics :
        opened_paths machine (get_file_paths i.query) ≡ panic
        → ¬ ((upload_files machine s.context i).0 ≡ ok tt)
    unfolding upload_files
    upload_panics e = λ done. ground (arith, e, done)

  -- What was opened and sent, where an upload succeeded.
  upload_delivers :
      (s : Schedule) (i : ImportStatement Net) (sent : Net → Bytes)
      → Appends machine.tcp sent
      → (r : Result (List File)) → opened_paths machine (get_file_paths i.query) ≡ r
      → (upload_files machine s.context i).0 ≡ ok tt
      → (files : List File) × (opened_paths machine (get_file_paths i.query) ≡ ok files)
        × ((body : Bytes) × (sent (upload_files machine s.context i).1.net
              ≡ sent i.proxy.net ++ (head_of (response_headers ++ [] ∷ []) ++ body))
            × (body_of body ≡ some (contents (get_row_separator i.query) files)))
  upload_delivers s i sent net_appends (ok files) e done =
      let sep = get_row_separator i.query in
      let h = write-Sends machine.tcp sent net_appends s.context sep files i.proxy in
      (
        files,
        e,
        (
          _,
          rw (upload_written s i e)
              (h.delivered (ap (λ r. r.0) (sym (upload_written s i e)) ∙ done)),
          body_of-contents sep files,
        ),
      )
  upload_delivers s i sent net_appends (err x) e done = absurd (upload_failed s i e done)
  upload_delivers s i sent net_appends panic e done = absurd (upload_panics s i e done)

  -- On a network in which a write that reports no error has sent its bytes and a close sends none, and
  -- in which any write may fail and the context be done at any time: an import on an open connection
  -- that was started and succeeds has executed the statement that names the proxy, and has sent the
  -- contents of all files that the text names, which were there to open, in their order, as the body
  -- of an answer behind the handshake.
  pub exec_import_delivers :
      (s : Schedule) (text : Bytes) (args : List V) (c : Connection World) (n n' : Net)
      (i : ImportStatement Net) (sent : Net → Bytes) {count : RowCount}
      → Appends machine.tcp sent
      → c.is_closed ≡ false
      → is_import_query text ≡ true
      → new_import_statement machine text c.config.host c.config.port n ≡ (ok i, n')
      → (exec wire machine s text args c n).0 ≡ ok count
      → ((run_statement wire s.context
            (update_import_query machine.expand text i.proxy.host i.proxy.port)
            args
            c).0
          ≡ ok count)
        × ((files : List File) × (opened_paths machine (get_file_paths text) ≡ ok files)
            × ((body : Bytes) × (sent (exec wire machine s text args c n).2
                  ≡ sent n' ++ (head_of (response_headers ++ [] ∷ []) ++ body))
                × (body_of body ≡ some (contents (get_row_separator text) files))))
  unfolding get_updated_query
  exec_import_delivers s text args c n n' i sent {count} net_appends opened h created done =
      let both =
        wait_ok s.upload_first _ _ (sym (exec_both s text args c n n' i opened h created) ∙ done) in
      let (query, net) =
        new_import_statement-holds machine text c.config.host c.config.port n created in
      let (files, e, (body, sends, decodes)) =
        upload_delivers s i sent net_appends (opened_paths machine (get_file_paths i.query)) refl
          both.0 in
      (
        subst
            (λ q.
              (run_statement wire s.context
                (update_import_query machine.expand q i.proxy.host i.proxy.port) args c).0
              ≡ ok count)
            query both.1,
        (
          files,
          subst (λ q. opened_paths machine (get_file_paths q) ≡ ok files) query e,
          (
            body,
            ap sent (exec_import_net s text args c n n' i opened h created)
                ∙ close-Sends machine.tcp sent net_appends (upload_files machine s.context i).1
                ∙ sends
                ∙ ap (λ m. sent m ++ (head_of (response_headers ++ [] ∷ []) ++ body)) net,
            subst (λ q. body_of body ≡ some (contents (get_row_separator q) files)) query decodes,
          ),
        ),
      )
