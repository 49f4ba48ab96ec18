-- ===== src/Import.antt =====
-- pkg/connection/import.go, and `exec` of pkg/connection/connection.go with the branch that imports
-- local files. `exec` runs the statement and the upload as two goroutines that share a context and
-- no other state: the one works on the connection, the other on the proxy. A `Schedule` says what
-- their order leaves open: the shared context, and which error comes first.
pub mod Query
pub mod Fresh
pub mod Files
pub mod Paths
pub mod Replace
pub mod Dialling
pub mod Rewrite
pub mod Separators
pub mod Outcomes
pub mod Sockets
use go_exasol.Base.Int.{ℤ}
use go_exasol.Base.{ℕ, Bool, true, false, Option, none, some, List, [], ◌∷◌, Bytes, if◌then◌else◌}
use go_exasol.Connection.Query.{RowCount, execute, to_result}
use go_exasol.Connection.{Connection, lift, ◌>>=◌}
use go_exasol.Effect.{continue}
use go_exasol.Errors.{Error, bad_conn, new_file_not_found}
use go_exasol.Hosts.Shuffle.{shuffle_hosts}
use go_exasol.Hosts.{resolve_hosts}
use go_exasol.Import.Query.{is_import_query, get_file_paths, get_row_separator, update_import_query}
use go_exasol.Proxy.Send.{File, write}
use go_exasol.Proxy.Start.{Dialled, proxy, no_proxy, new_proxy, start_proxy}
use go_exasol.Proxy.{Tcp, Proxy, close}
use go_exasol.Prepared.{NamedValue, named_values_to_values}
use go_exasol.Result.{Result, ok, err, panic}
use go_exasol.Wire.{Wire, Context, background}

-- What the machine that runs the driver does for an import: the network, numbers drawn at random,
-- the files, and the expansion of templates by `regexp`.
pub record Machine (Net : Type 0) : Type 0 where
  pub tcp : Tcp Net
  pub random : Net → ℕ × Net
  pub open_os_file : Bytes → Option File
  pub expand : Bytes → Bytes → Bytes

pub record ImportStatement (Net : Type 0) : Type 0 where
  pub query : Bytes
  pub host : Bytes
  pub port : ℤ
  pub proxy : Proxy Net

module _ {Net : Type 0} (machine : Machine Net) where
  -- `createProxy`
  unfoldable pub create_proxy : Bytes → ℤ → Net → Result (Dialled Net) × Net
  create_proxy host port n = elim (resolve_hosts host) [
    | ok hosts ↦
        let (shuffled, n') = shuffle_hosts machine.random hosts n in
        (ok (new_proxy machine.tcp shuffled port n'), n')
    | err e ↦ (err e, n)
    | panic ↦ (panic, n)
  ]

  abbrev pub started :
      Bytes → Bytes → ℤ → Result (Unit {0}) × Proxy Net → Result (ImportStatement Net) × Net
  started query host port (ok u, p) =
      (ok (record { query = query; host = host; port = port; proxy = p }), p.net)
  started query host port (err e, p) = (err e, p.net)
  started query host port (panic, p) = (panic, p.net)

  abbrev pub start_dialled :
      Bytes → Bytes → ℤ → Result (Dialled Net) × Net → Result (ImportStatement Net) × Net
  start_dialled query host port (ok (proxy p), n) =
      started query host port (start_proxy machine.tcp p)
  start_dialled query host port (ok (no_proxy (some e) n'), n) = (err e, n')
  start_dialled query host port (ok (no_proxy none n'), n) = (panic, n')
  start_dialled query host port (err e, n) = (err e, n)
  start_dialled query host port (panic, n) = (panic, n)

  -- `NewImportStatement`; the network is the one behind the call.
  unfoldable pub new_import_statement : Bytes → Bytes → ℤ → Net → Result (ImportStatement Net) × Net
  unfolding create_proxy
  new_import_statement query host port n = start_dialled query host port (create_proxy host port n)

  -- `GetUpdatedQuery`
  unfoldable pub get_updated_query : ImportStatement Net → Bytes
  get_updated_query i = update_import_query machine.expand i.query i.proxy.host i.proxy.port

  -- `OpenFile`
  unfoldable pub open_file : Bytes → Result File
  open_file path = elim (machine.open_os_file path) [
    | some file ↦ ok file
    | none ↦ err (new_file_not_found path)
  ]

  abbrev add_file : Result File → Result (List File) → Result (List File)
  add_file (ok file) (ok files) = ok (file ∷ files)
  add_file (ok file) (err e) = err e
  add_file (ok file) panic = panic
  add_file (err e) files = err e
  add_file panic files = panic

  unfoldable pub open_files : List Bytes → Result (List File)
  unfolding open_file
  open_files [] = ok []
  open_files (path ∷ paths) = add_file (open_file path) (open_files paths)

  abbrev pub opened_paths : Result (List Bytes) → Result (List File)
  opened_paths (ok paths) = open_files paths
  opened_paths (err e) = err e
  opened_paths panic = panic

  -- `UploadFiles`: the outcome, and the proxy after it
  unfoldable pub upload_files : Context → ImportStatement Net → Result (Unit {0}) × Proxy Net
  unfolding open_files
  upload_files ctx i = elim (opened_paths (get_file_paths i.query)) [
    | ok files ↦ write machine.tcp ctx files (get_row_separator i.query) i.proxy
    | err e ↦ (err e, i.proxy)
    | panic ↦ (panic, i.proxy)
  ]

-- The context that the goroutines share, and whether the upload fails before the statement does
-- where both fail.
pub record Schedule : Type 0 where
  pub context : Context
  pub upload_first : Bool

-- `Wait`: the first error, or the result of the statement.
abbrev pub wait : {A : Type 0} → Bool → Result (Unit {0}) → Result A → Result A
wait first (ok u) r = r
wait first (err e) (ok a) = err e
wait first (err e) (err x) = if first then err e else err x
wait first (err e) panic = panic
wait first panic r = panic

module _ {World V Raw : Type 0} (wire : Wire World V Raw) where
  -- `executeSimpleWrapper` and `executePreparedStatementWrapper`
  unfoldable pub run_statement :
      Context → Bytes → List V → Connection World → Result RowCount × Connection World
  run_statement ctx text args c = (execute wire ctx text args >>= λ r. lift (to_result wire r)) c

module _ {World V Raw Net : Type 0} (wire : Wire World V Raw) (machine : Machine Net) where
  -- From the creation of the import statement on.
  abbrev pub with_import :
      Schedule
      → List V
      → Result (ImportStatement Net) × Net
      → Connection World
      → Result RowCount × Connection World × Net
  with_import schedule args (ok i, n) c =
      let (executed, c') =
        run_statement wire schedule.context (get_updated_query machine i) args c in
      let (uploaded, p) = upload_files machine schedule.context i in
      (wait schedule.upload_first uploaded executed, c', (close machine.tcp p).net)
  with_import schedule args (err e, n) c = (err e, c, n)
  with_import schedule args (panic, n) c = (panic, c, n)

  -- `exec`
  unfoldable pub exec :
      Schedule → Bytes → List V → Connection World → Net → Result RowCount × Connection World × Net
  unfolding run_statement
  exec schedule text args c n =
      if c.is_closed
      then (err bad_conn, c, n)
      else if is_import_query text
      then with_import schedule args
          (new_import_statement machine text c.config.host c.config.port n) c
      else (let (r, c') = run_statement wire schedule.context text args c in (r, c', n))

  -- `Exec`
  unfoldable pub exec_background :
      Schedule → Bytes → List V → Connection World → Net → Result RowCount × Connection World × Net
  unfolding exec
  exec_background schedule = exec (record schedule { context = background })

  abbrev pub exec_values :
      Schedule
      → Bytes
      → Result (List V)
      → Connection World
      → Net
      → Result RowCount × Connection World × Net
  exec_values schedule text (ok values) c n = exec schedule text values c n
  exec_values schedule text (err e) c n = (err e, c, n)
  exec_values schedule text panic c n = (panic, c, n)

  -- `ExecContext`
  unfoldable pub exec_context :
      Schedule
      → Bytes
      → List (NamedValue V)
      → Connection World
      → Net
      → Result RowCount × Connection World × Net
  unfolding exec
  exec_context schedule text args = exec_values schedule text (named_values_to_values args)
