-- ===== src/Import/Sockets.antt =====
-- The socket of an import behind `exec`.
use go_exasol.Base.{ℕ, ap, ◌≡◌, refl, ◌∙◌, Bool, true, false, List, [], ◌∷◌, Bytes, arith}
use go_exasol.Import.{
  Machine, ImportStatement, Schedule, exec, upload_files, opened_paths, new_import_statement,
  create_proxy,
}
use go_exasol.Import.Query.{is_import_query, get_file_paths, get_row_separator}
use go_exasol.Proxy.Start.{proxy, start_proxy, await_reply, send_words, magic_words, le32}
use go_exasol.Base.Int.{ℤ}
use go_exasol.Proxy.Send.{File}
use go_exasol.Proxy.{Tcp, Proxy, socket_write}
use go_exasol.Result.{Result, ok, err, panic}
use go_exasol.Wire.{Wire, Context}
use go_exasol.Connection.{Connection}
use go_exasol.Errors.{Error}
use go_exasol.Proxy.Marks.{Tracks, IsMarked, write-KeepsMarks, close_closed}
use go_exasol.Import.Outcomes.{exec_import_net}
use go_exasol.Import.Fresh.{new_import_statement-fresh}

module _ {World V Raw Net : Type 0} (wire : Wire World V Raw) (machine : Machine Net)
    (is_open : Net → Bool) (tracks : Tracks machine.tcp is_open) where
  upload_files-IsMarked :
      (ctx : Context) (i : ImportStatement Net) (r : Result (List File))
      → opened_paths machine (get_file_paths i.query) ≡ r
      → IsMarked machine.tcp is_open tracks i.proxy
      → IsMarked machine.tcp is_open tracks (upload_files machine ctx i).1
  unfolding upload_files
  upload_files-IsMarked ctx i (ok files) e h =
      rw (e, upload_files)
        (write-KeepsMarks machine.tcp is_open tracks ctx files (get_row_separator i.query) i.proxy
          h)
  upload_files-IsMarked ctx i (err x) e h = rw (e, upload_files) h
  upload_files-IsMarked ctx i panic e h = rw (e, upload_files) h

  -- Whatever comes of the statement and of the upload, cancellation included, the socket of an
  -- import that was started is closed when `exec` returns.
  pub exec_import_closes :
      (s : Schedule) (text : Bytes) (args : List V) (c : Connection World) (n n' : Net)
      (i : ImportStatement Net)
      → c.is_closed ≡ false
      → is_import_query text ≡ true
      → new_import_statement machine text c.config.host c.config.port n ≡ (ok i, n')
      → is_open (exec wire machine s text args c n).2 ≡ false
  exec_import_closes s text args c n n' i opened h created =
      ap is_open (exec_import_net wire machine s text args c n n' i opened h created)
      ∙ close_closed machine.tcp is_open tracks (upload_files machine s.context i).1 (
          upload_files-IsMarked s.context i _ refl (λ e. absurd (
            let f = new_import_statement-fresh machine text c.config.host c.config.port n created in
            cc)))

module _ {Net : Type 0} (tcp : Tcp Net) (is_open : Net → Bool) (tracks : Tracks tcp is_open) where
  send_words-is_open :
      (words : List ℕ) (p : Proxy Net) → is_open (send_words tcp words p).1.net ≡ is_open p.net
  unfolding send_words
  send_words-is_open [] p = refl
  send_words-is_open (word ∷ words) p =
      let q = (socket_write tcp (le32 word) p).1 in
      ground (arith, send_words-is_open words q, tracks.write_keeps (le32 word) p.net)

  -- The handshake leaves the socket as it is, also where it fails.
  start_proxy-is_open : (p : Proxy Net) → is_open (start_proxy tcp p).1.net ≡ is_open p.net
  unfolding start_proxy await_reply
  start_proxy-is_open p =
      let q = (send_words tcp magic_words p).1 in
      ground (arith, send_words-is_open magic_words p, tracks.read_keeps 24 q.net)

module _ {World V Raw Net : Type 0} (wire : Wire World V Raw) (machine : Machine Net)
    (is_open : Net → Bool) (tracks : Tracks machine.tcp is_open) where
  not_started :
      (query host : Bytes) (port : ℤ) (n m : Net) (p : Proxy Net) {e : Error}
      → create_proxy machine host port n ≡ (ok (proxy p), m)
      → (start_proxy machine.tcp p).0 ≡ err e
      → new_import_statement machine query host port n ≡ (err e, (start_proxy machine.tcp p).1.net)
  unfolding new_import_statement
  not_started query host port n m p dialled failed = ground (arith, dialled, failed)

  -- Where the handshake with a host that was dialled fails, `exec` returns its error, the connection
  -- is as it was, and the socket to that host stays open.
  pub exec_import_leaks :
      (s : Schedule) (text : Bytes) (args : List V) (c : Connection World) (n m : Net)
      (p : Proxy Net) {e : Error}
      → c.is_closed ≡ false
      → is_import_query text ≡ true
      → create_proxy machine c.config.host c.config.port n ≡ (ok (proxy p), m)
      → is_open p.net ≡ true
      → (start_proxy machine.tcp p).0 ≡ err e
      → ((exec wire machine s text args c n).0 ≡ err e)
        × ((exec wire machine s text args c n).1 ≡ c)
        × (is_open (exec wire machine s text args c n).2 ≡ true)
  unfolding exec
  exec_import_leaks s text args c n m p opened h dialled is_up failed = ground (
    arith,
    opened,
    h,
    not_started text c.config.host c.config.port n m p dialled failed,
    start_proxy-is_open machine.tcp is_open tracks p,
    is_up,
  )
