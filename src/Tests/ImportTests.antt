-- ===== src/Tests/ImportTests.antt =====
-- The import statements of the repository's tests.
use go_exasol.Base.Int.{pos}
use go_exasol.Base.{◌≡◌, refl, true, false, [], ◌∷◌, ◌++◌, some, List, Bytes, lit, arith, All}
use go_exasol.Connection.Query.{execute, to_result}
use go_exasol.Connection.Send.{send}
use go_exasol.Errors.{Error, eof, explained, err_invalid_proxy_conn}
use go_exasol.Hosts.Shuffle.{shuffle_hosts}
use go_exasol.Hosts.{resolve_hosts}
use go_exasol.Import.Outcomes.{exec_import_delivers}
use go_exasol.Import.Paths.{IsPath, clauses, get_file_paths-clauses, get_file_paths_cut}
use go_exasol.Import.Query.{is_import_query, get_file_paths, get_row_separator, update_import_query}
use go_exasol.Import.Replace.{data_file}
use go_exasol.Import.Rewrite.{template_of, update_import_query-clauses}
use go_exasol.Import.Sockets.{exec_import_closes, exec_import_leaks}
use go_exasol.Import.{
  ImportStatement, exec, run_statement, new_import_statement, create_proxy, upload_files,
  opened_paths,
}
use go_exasol.Proxy.Decode.{body_of}
use go_exasol.Proxy.Delivery.{head_of}
use go_exasol.Proxy.Handshake.{words_of}
use go_exasol.Proxy.Received.{contents}
use go_exasol.Proxy.Send.{File, response_headers, write}
use go_exasol.Proxy.Start.{magic_words, new_proxy, proxy, start_proxy}
use go_exasol.Result.{ok, err}
use go_exasol.Tests.ProxySamples.{
  Socket, machine, refusing, schedule, no_socket, dialled, tcp-Appends, tcp-Tracks,
  hanging_up-Tracks,
}
use go_exasol.Tests.Samples.{wire, connection}
use go_exasol.Text.Decimal.{show}
use go_exasol.Text.{replace_first, split, trim_left, trim_right}
use go_exasol.Wire.{background}

abbrev two_parts : Bytes
two_parts =
    lit
      "IMPORT INTO table_1 FROM LOCAL CSV USER 'agent_007' IDENTIFIED BY 'secret' FILE 'tab1_part1.csv' FILE 'tab1_part2.csv' COLUMN SEPARATOR = ';' SKIP = 5;"

paths : get_file_paths two_parts ≡ ok (lit "tab1_part1.csv" ∷ lit "tab1_part2.csv" ∷ [])
unfolding get_file_paths
paths = refl

updated :
    update_import_query (λ template whole. template) two_parts (lit "127.0.0.1") (pos 4333)
    ≡ lit
        "IMPORT INTO table_1 FROM CSV AT 'http://127.0.0.1:4333' USER 'agent_007' IDENTIFIED BY 'secret' FILE 'data.csv' COLUMN SEPARATOR = ';' SKIP = 5;"
unfolding update_import_query replace_first show
updated = refl

row_separator :
    get_row_separator
      (lit "IMPORT into table FROM LOCAL CSV file '/path/to/filename.csv' ROW SEPARATOR =  'CRLF'")
    ≡ lit "\r\n"
unfolding get_row_separator
row_separator = refl

-- An import of one file.
abbrev text : Bytes
text = lit "IMPORT INTO t FROM LOCAL CSV FILE 'a.csv' "

is_import : is_import_query text ≡ true
unfolding is_import_query
is_import = refl

-- Where the proxy stands behind the handshake.
abbrev statement : ImportStatement Socket
statement = record {
  query = text;
  host = lit "localhost";
  port = pos 8563;
  proxy = record {
    is_closed = false;
    host = lit "10.0.0.7";
    port = pos 4333;
    net = record { is_open = true; sent = words_of magic_words };
  };
}

created :
    new_import_statement machine text (lit "localhost") (pos 8563) no_socket
    ≡ (ok statement, statement.proxy.net)
unfolding new_import_statement create_proxy shuffle_hosts resolve_hosts split show start_proxy
    new_proxy trim_left trim_right
created = refl

exec_import_closes_example :
    (exec wire machine schedule text [] connection no_socket).2.is_open ≡ false
exec_import_closes_example =
    exec_import_closes wire machine (λ n. n.is_open) tcp-Tracks schedule text [] connection
      no_socket statement.proxy.net statement refl is_import created

imported :
    (exec wire machine schedule text [] connection no_socket).0
    ≡ ok (record { affected_rows = pos 1 })
unfolding exec upload_files run_statement execute send get_file_paths get_row_separator write
    to_result
imported = simp (is_import, created)

exec_import_delivers_example :
    ((run_statement wire background
        (update_import_query machine.expand text (lit "10.0.0.7") (pos 4333))
        []
        connection).0
      ≡ ok (record { affected_rows = pos 1 }))
    × ((files : List File) × (opened_paths machine (get_file_paths text) ≡ ok files)
        × ((body : Bytes) × ((exec wire machine schedule text [] connection no_socket).2.sent
              ≡ words_of magic_words ++ (head_of (response_headers ++ [] ∷ []) ++ body))
            × (body_of body ≡ some (contents (get_row_separator text) files))))
exec_import_delivers_example =
    exec_import_delivers wire machine schedule text [] connection no_socket statement.proxy.net
      statement (λ n. n.sent) tcp-Appends refl is_import created imported

dials :
    create_proxy refusing (lit "localhost") (pos 8563) no_socket ≡ (ok (proxy dialled), no_socket)
unfolding create_proxy shuffle_hosts resolve_hosts split show new_proxy
dials = refl

abbrev hung_up : Error
hung_up =
    explained err_invalid_proxy_conn
      (lit "could not read from TCP connection to get internal host and port") eof

fails : (start_proxy refusing.tcp dialled).0 ≡ err hung_up
unfolding start_proxy
fails = refl

exec_import_leaks_example :
    ((exec wire refusing schedule text [] connection no_socket).0 ≡ err hung_up)
    × ((exec wire refusing schedule text [] connection no_socket).1 ≡ connection)
    × ((exec wire refusing schedule text [] connection no_socket).2.is_open ≡ true)
exec_import_leaks_example =
    exec_import_leaks wire refusing (λ n. n.is_open) hanging_up-Tracks schedule text [] connection
      no_socket no_socket dialled refl is_import dials refl fails

-- The statement with credentials of the repository's tests, by its parts.
abbrev behind_csv : Bytes
behind_csv = lit " USER 'agent_007' IDENTIFIED BY 'secret' "

abbrev before_files : Bytes
before_files = lit "IMPORT INTO table_1 FROM " ++ (lit "LOCAL CSV" ++ behind_csv)

abbrev behind_files : Bytes
behind_files = lit "COLUMN SEPARATOR = ';' SKIP = 5;"

two_paths : All IsPath (lit "tab1_part1.csv" ∷ lit "tab1_part2.csv" ∷ [])
two_paths = ground arith

get_file_paths-clauses_example :
    get_file_paths
      (before_files ++ (clauses (lit "tab1_part1.csv" ∷ lit "tab1_part2.csv" ∷ []) ++ behind_files))
    ≡ ok (lit "tab1_part1.csv" ∷ lit "tab1_part2.csv" ∷ [])
get_file_paths-clauses_example =
    get_file_paths-clauses before_files behind_files (lit "tab1_part1.csv")
      (lit "tab1_part2.csv" ∷ []) (ground arith) (ground arith) two_paths

get_file_paths_cut_example :
    (others : List Bytes) × (get_file_paths
        (lit "IMPORT INTO t FROM LOCAL CSV " ++ (lit "FILE '" ++ (lit "my" ++ lit "-file.csv'")))
      ≡ ok (lit "my" ∷ others))
get_file_paths_cut_example =
    get_file_paths_cut (lit "IMPORT INTO t FROM LOCAL CSV ") (lit "-file.csv'") b'm' (lit "y")
      (ground arith) (ground arith) refl

update_import_query-clauses_example :
    update_import_query
      (λ template whole. template)
      (before_files ++ (clauses (lit "tab1_part1.csv" ∷ lit "tab1_part2.csv" ∷ []) ++ behind_files))
      (lit "127.0.0.1")
      (pos 4333)
    ≡ lit "IMPORT INTO table_1 FROM "
      ++ (template_of (lit "127.0.0.1") (pos 4333) ++ (behind_csv ++ (data_file ++ behind_files)))
update_import_query-clauses_example =
    update_import_query-clauses (λ template whole. template) (lit "IMPORT INTO table_1 FROM ")
      behind_csv (lit "tab1_part1.csv") behind_files (lit "127.0.0.1") (lit "tab1_part2.csv" ∷ [])
      (pos 4333) two_paths (ground arith) (ground arith) (ground arith) (ground arith)
      (λ whole. refl)
