-- ===== src/Proxy/Send.antt =====
-- `Write`, `SendFile` and `sendHeaders` of pkg/proxy/proxy.go. A file is its content and the error
-- that its reading ends with, io.EOF or another.
use go_exasol.Base.{
  ℕ, Bool, true, false, not, ◌&&◌, Option, none, some, List, [], ◌∷◌, ◌++◌, Bytes, lit, ◌==◌,
  length, equal, if◌then◌else◌,
}
use go_exasol.Dsn.{is_empty}
use go_exasol.Effect.{return, ◌>>◌}
use go_exasol.Errors.{Error, reported}
use go_exasol.Proxy.Chunk.{show_hex, crlf}
use go_exasol.Proxy.{Tcp, Proxy, P, socket_write, context_error, close}
use go_exasol.Result.{Result, ok, err, panic}
use go_exasol.Wire.{Context}

pub record File : Type 0 where
  pub content : Bytes
  pub ending : Error

-- What one call of `ReadBytes` returns: bytes, and an error or nil.
abbrev pub Read : Type 0
Read = Bytes × Option Error

-- One more byte in front of what the first call returns. Behind the bytes of a line that the file
-- does not end, there is one more call that returns nothing.
abbrev pub extend : ℕ → List Read → List Read
extend c [] = []
extend c ((line, none) ∷ reads) = (c ∷ line, none) ∷ reads
extend c (([], some e) ∷ reads) = (c ∷ [], some e) ∷ ([], some e) ∷ reads
extend c ((d ∷ line, some e) ∷ reads) = (c ∷ d ∷ line, some e) ∷ reads

-- The calls of `ReadBytes(delimiter)` one after another, up to the first that returns no bytes.
unfoldable pub reads_of : ℕ → Error → Bytes → List Read
reads_of delimiter ending [] = ([], some ending) ∷ []
reads_of delimiter ending (c ∷ s) =
    let later = reads_of delimiter ending s in
    if c == delimiter then (c ∷ [], none) ∷ later else extend c later

abbrev pub is_some : Option Error → Bool
is_some none = false
is_some (some e) = true

-- What is written for a read; `none` where the loop is left.
unfoldable pub outgoing : Bytes → Read → Option Bytes
outgoing row_separator (line, e) =
    let line' = if is_some e && not (is_empty line) then line ++ row_separator else line in
    if is_some e && is_empty line then none else (if is_empty line' then none else some line')

abbrev pub delimiter_of : Bytes → ℕ
delimiter_of row_separator = if equal row_separator (lit "\r") then b'\r' else b'\n'

abbrev pub header_written :
    {Net : Type 0} → Bytes → Result (Unit {0}) × Proxy Net → Result (Unit {0}) × Proxy Net
header_written header (ok u, p) = (ok u, p)
header_written header (err e, p) =
    (err (reported (lit "unable to send header <" ++ (header ++ lit ">to proxy: ")) e), p)
header_written header (panic, p) = (panic, p)

abbrev pub response_headers : List Bytes
response_headers =
    lit "HTTP/1.1 200 OK"
    ∷ lit "Content-Type: application/octet-stream"
    ∷ lit "Content-Disposition: attachment; filename=data.csv"
    ∷ lit "Transfer-Encoding: chunked"
    ∷ lit "Connection: close"
    ∷ []

module _ {Net : Type 0} (tcp : Tcp Net) where
  -- `Write` of the chunked writer
  unfoldable pub chunked_write : Bytes → P Net (Unit {0})
  chunked_write [] = return tt
  chunked_write (c ∷ line) = do
    socket_write tcp (show_hex (length (c ∷ line)) ++ crlf)
    socket_write tcp (c ∷ line)
    socket_write tcp crlf

  -- The loop of `SendFile`, over what its reads return. It is left at the first that returns no
  -- bytes, which is the last.
  unfoldable pub send_reads : Context → Bytes → List Read → P Net (Unit {0})
  unfolding chunked_write outgoing
  send_reads ctx row_separator [] p = (ok tt, p)
  send_reads ctx row_separator (read ∷ reads) p = elim (context_error tcp ctx p.net) [
    | some e ↦ (err e, close tcp p)
    | none ↦ elim (outgoing row_separator read) [
      | none ↦ (ok tt, p)
      | some line ↦ (do chunked_write line; send_reads ctx row_separator reads) p
    ]
  ]

  unfoldable pub send_file : Context → Bytes → File → P Net (Unit {0})
  unfolding send_reads reads_of
  send_file ctx row_separator file =
      send_reads ctx row_separator (reads_of (delimiter_of row_separator) file.ending file.content)

  unfoldable pub send_files : Context → Bytes → List File → P Net (Unit {0})
  unfolding send_file
  send_files ctx row_separator [] = return tt
  send_files ctx row_separator (file ∷ files) = do
    send_file ctx row_separator file
    send_files ctx row_separator files

  unfoldable pub send_each_header : List Bytes → P Net (Unit {0})
  send_each_header [] = return tt
  send_each_header (header ∷ headers) = do
    λ p. header_written (header ++ crlf) (socket_write tcp (header ++ crlf) p)
    send_each_header headers

  -- `sendHeaders`
  unfoldable pub send_headers : List Bytes → P Net (Unit {0})
  unfolding send_each_header
  send_headers headers = send_each_header (headers ++ [] ∷ [])

  -- `Write`
  unfoldable pub write : Context → List File → Bytes → P Net (Unit {0})
  unfolding send_headers send_files
  write ctx files row_separator = do
    send_headers response_headers
    send_files ctx row_separator files
    socket_write tcp (lit "0\r\n\r\n")
