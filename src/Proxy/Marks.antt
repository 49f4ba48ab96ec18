-- ===== src/Proxy/Marks.antt =====
-- The mark `isClosed` of a proxy against its socket.
use go_exasol.Base.{
  ℕ, ◌≡◌, Bool, true, false, List, [], ◌∷◌, ◌++◌, Option, none, some, Bytes, lit, length, arith,
}
use go_exasol.Proxy.Chunk.{show_hex, crlf}
use go_exasol.Effect.{continue}
use go_exasol.Proxy.Send.{
  delimiter_of, File, Read, chunked_write, outgoing, reads_of, send_reads, send_file, send_files,
  send_each_header, send_headers, write, header_written, response_headers,
}
use go_exasol.Proxy.{Tcp, Proxy, P, socket_write, context_error, close}
use go_exasol.Result.{Result, ok, err, panic}
use go_exasol.Wire.{Context}
use go_exasol.Errors.{Error}

-- Whether the socket is open: closing it closes it, and writing leaves it as it is.
pub record Tracks {Net : Type 0} (tcp : Tcp Net) (is_open : Net → Bool) : Type 0 where
  pub write_keeps : (b : Bytes) (n : Net) → is_open (tcp.write b n).1 ≡ is_open n
  pub read_keeps : (k : ℕ) (n : Net) → is_open (tcp.read_full k n).1 ≡ is_open n
  pub close_closes : (n : Net) → is_open (tcp.close n) ≡ false

module _ {Net : Type 0} (tcp : Tcp Net) (is_open : Net → Bool) (tracks : Tracks tcp is_open) where
  -- A proxy that is marked closed has a closed socket.
  abbrev pub IsMarked : Proxy Net → Type 0
  IsMarked p = p.is_closed ≡ true → is_open p.net ≡ false

  -- A call of the proxy keeps the marks right.
  abbrev pub KeepsMarks : P Net (Unit {0}) → Type 0
  KeepsMarks f = (p : Proxy Net) → IsMarked p → IsMarked (f p).1

  pub socket_write-KeepsMarks : (b : Bytes) → KeepsMarks (socket_write tcp b)
  socket_write-KeepsMarks b p h = λ e. ground (arith, tracks.write_keeps b p.net, h)

  pub IsMarked-continue :
      (r : Result (Unit {0}) × Proxy Net) (g : P Net (Unit {0}))
      → IsMarked r.1
      → KeepsMarks g
      → IsMarked (continue r (λ u. g)).1
  IsMarked-continue (ok u, q) g k hg = hg q k
  IsMarked-continue (err e, q) g k hg = k
  IsMarked-continue (panic, q) g k hg = k

  close-IsMarked : (p : Proxy Net) → IsMarked p → IsMarked (close tcp p)
  unfolding close
  close-IsMarked p h = λ e. ground (arith, h, tracks.close_closes p.net)

  -- After `Close` the socket is closed.
  pub close_closed : (p : Proxy Net) → IsMarked p → is_open (close tcp p).net ≡ false
  unfolding close
  close_closed p h = ground (arith, h, tracks.close_closes p.net)

  chunked_write-KeepsMarks : (line : Bytes) → KeepsMarks (chunked_write tcp line)
  unfolding chunked_write
  chunked_write-KeepsMarks [] p h = h
  chunked_write-KeepsMarks (c ∷ line) p h =
      let size = show_hex (length (c ∷ line)) ++ crlf in
      IsMarked-continue (socket_write tcp size p) _ (socket_write-KeepsMarks size p h) λ q k.
        IsMarked-continue (socket_write tcp (c ∷ line) q) (socket_write tcp crlf)
          (socket_write-KeepsMarks (c ∷ line) q k) (socket_write-KeepsMarks crlf)

  turn-KeepsMarks :
      (next : P Net (Unit {0}))
      → KeepsMarks next
      → (failed : Option Error) (o : Option Bytes) (p : Proxy Net) → IsMarked p
      → IsMarked
          (elim failed as (λ x. Result (Unit {0}) × Proxy Net) [
            | some e ↦ (err e, close tcp p)
            | none ↦ elim o as (λ x. Result (Unit {0}) × Proxy Net) [
              | none ↦ (ok tt, p)
              | some line ↦ continue (chunked_write tcp line p) (λ u. next)
            ]
          ]).1
  turn-KeepsMarks next k (some e) o p h = close-IsMarked p h
  turn-KeepsMarks next k none none p h = h
  turn-KeepsMarks next k none (some line) p h =
      IsMarked-continue (chunked_write tcp line p) next (chunked_write-KeepsMarks line p h) k

  send_reads-KeepsMarks :
      (ctx : Context) (sep : Bytes) (reads : List Read) → KeepsMarks (send_reads tcp ctx sep reads)
  unfolding send_reads
  send_reads-KeepsMarks ctx sep [] p h = h
  send_reads-KeepsMarks ctx sep (read ∷ reads) p h =
      turn-KeepsMarks (send_reads tcp ctx sep reads) (send_reads-KeepsMarks ctx sep reads)
        (context_error tcp ctx p.net) (outgoing sep read) p h

  send_files-KeepsMarks :
      (ctx : Context) (sep : Bytes) (files : List File) → KeepsMarks (send_files tcp ctx sep files)
  unfolding send_files send_file
  send_files-KeepsMarks ctx sep [] p h = h
  send_files-KeepsMarks ctx sep (file ∷ files) p h =
      let reads = reads_of (delimiter_of sep) file.ending file.content in
      IsMarked-continue (send_reads tcp ctx sep reads p) (send_files tcp ctx sep files)
        (send_reads-KeepsMarks ctx sep reads p h) (send_files-KeepsMarks ctx sep files)

  header_written-IsMarked :
      (line : Bytes) (r : Result (Unit {0}) × Proxy Net)
      → IsMarked r.1
      → IsMarked (header_written line r).1
  header_written-IsMarked line (ok u, q) k = k
  header_written-IsMarked line (err e, q) k = k
  header_written-IsMarked line (panic, q) k = k

  send_each_header-KeepsMarks : (headers : List Bytes) → KeepsMarks (send_each_header tcp headers)
  unfolding send_each_header
  send_each_header-KeepsMarks [] p h = h
  send_each_header-KeepsMarks (header ∷ headers) p h =
      let line = header ++ crlf in
      IsMarked-continue (header_written line (socket_write tcp line p))
        (send_each_header tcp headers)
        (header_written-IsMarked line (socket_write tcp line p) (socket_write-KeepsMarks line p h))
        (send_each_header-KeepsMarks headers)

  pub write-KeepsMarks :
      (ctx : Context) (files : List File) (sep : Bytes) → KeepsMarks (write tcp ctx files sep)
  unfolding write send_headers
  write-KeepsMarks ctx files sep p h =
      IsMarked-continue (send_headers tcp response_headers p) _
        (send_each_header-KeepsMarks (response_headers ++ [] ∷ []) p h)
        λ q k.
          IsMarked-continue (send_files tcp ctx sep files q) (socket_write tcp (lit "0\r\n\r\n"))
            (send_files-KeepsMarks ctx sep files q k) (socket_write-KeepsMarks _)
