-- ===== src/Proxy/Success.antt =====
-- What has been sent where `Write` succeeds, whatever the network may do to a write.
use go_exasol.Base.{
  ℕ, ◌≡◌, ◌≢◌, refl, sym, ap, ◌∙◌, Option, none, some, List, [], ◌∷◌, ◌++◌, Bytes, arith,
  append-nil, append_assoc, length,
}
use go_exasol.Effect.{continue}
use go_exasol.Errors.{Error}
use go_exasol.Proxy.Chunk.{chunk, show_hex, crlf}
use go_exasol.Proxy.Decode.{chunks, last_chunk}
use go_exasol.Proxy.Delivery.{head_of, lines_of_files, chunks-append}
use go_exasol.Proxy.Lines.{lines_of, outgoing_ne}
use go_exasol.Proxy.Send.{
  header_written, File, Read, reads_of, outgoing, delimiter_of, chunked_write, send_reads,
  send_file, send_files, send_each_header, send_headers, response_headers, write,
}
use go_exasol.Proxy.{Tcp, Proxy, P, socket_write, context_error, close}
use go_exasol.Result.{Result, ok, err, panic}
use go_exasol.Wire.{Context}

-- A network in which a write that reports no error has sent its bytes; one that reports an error may
-- have sent anything. Closing sends nothing.
pub record Appends {Net : Type 0} (tcp : Tcp Net) (sent : Net → Bytes) : Type 0 where
  pub appends :
      (b : Bytes) (n : Net) → (tcp.write b n).0 ≡ none → sent (tcp.write b n).1 ≡ sent n ++ b
  pub close_keeps : (n : Net) → sent (tcp.close n) ≡ sent n

module _ {Net : Type 0} (tcp : Tcp Net) (sent : Net → Bytes) (net_appends : Appends tcp sent) where
  -- A call that has sent these bytes if it succeeds.
  pub record Sends (bytes : Bytes) (p : Proxy Net) (r : Result (Unit {0}) × Proxy Net)
      : Type 0 where
    pub delivered : r.0 ≡ ok tt → sent r.1.net ≡ sent p.net ++ bytes

  socket_write-Sends : (b : Bytes) (p : Proxy Net) → Sends b p (socket_write tcp b p)
  socket_write-Sends b p = record {
    delivered = λ done. ground (arith, net_appends.appends b p.net, done);
  }

  Sends-bind :
      (a b : Bytes) (p : Proxy Net) (r : Result (Unit {0}) × Proxy Net) (f : P Net (Unit {0}))
      → Sends a p r
      → ((q : Proxy Net) → Sends b q (f q))
      → Sends (a ++ b) p (continue r (λ u. f))
  Sends-bind a b p (ok tt, q) f h k = record {
    delivered = λ done.
        (k q).delivered done ∙ ap (λ s. s ++ b) (h.delivered refl) ∙ append_assoc (sent p.net) a b;
  }
  Sends-bind a b p (err e, q) f h k = record { delivered = λ done. absurd (cc) }
  Sends-bind a b p (panic, q) f h k = record { delivered = λ done. absurd (cc) }

  nothing-Sends : (p : Proxy Net) → Sends [] p (ok tt, p)
  nothing-Sends p = record { delivered = λ done. sym (append-nil (sent p.net)) }

  chunked_write-Sends :
      (c : ℕ) (line : Bytes) (p : Proxy Net)
      → Sends (chunk (c ∷ line)) p (chunked_write tcp (c ∷ line) p)
  unfolding chunked_write
  chunked_write-Sends c line p =
      let size = show_hex (length (c ∷ line)) ++ crlf in
      Sends-bind size _ p (socket_write tcp size p) _ (socket_write-Sends size p) λ q.
        Sends-bind (c ∷ line) crlf q (socket_write tcp (c ∷ line) q) _
          (socket_write-Sends (c ∷ line) q) (socket_write-Sends crlf)

  -- One turn of the loop, whether the context is done or not.
  turn-Sends :
      (lines : List Bytes) (next : P Net (Unit {0}))
      → ((q : Proxy Net) → Sends (chunks lines) q (next q))
      → (done : Option Error) (o : Option Bytes) → o ≢ some []
      → (p : Proxy Net)
      → Sends
          (chunks (elim o as (λ x. List Bytes) [ none ↦ [] | some l ↦ l ∷ lines ]))
          p
          (elim done as (λ x. Result (Unit {0}) × Proxy Net) [
            | some e ↦ (err e, close tcp p)
            | none ↦ elim o as (λ x. Result (Unit {0}) × Proxy Net) [
              | none ↦ (ok tt, p)
              | some l ↦ continue (chunked_write tcp l p) (λ u. next)
            ]
          ])
  turn-Sends lines next k (some e) o h p = record { delivered = λ done. absurd (cc) }
  turn-Sends lines next k none none h p = nothing-Sends p
  turn-Sends lines next k none (some []) h p = absurd (h refl)
  turn-Sends lines next k none (some (c ∷ l)) h p =
      Sends-bind (chunk (c ∷ l)) _ p (chunked_write tcp (c ∷ l) p) _ (chunked_write-Sends c l p) k

  send_reads-Sends :
      (ctx : Context) (sep : Bytes) (reads : List Read) (p : Proxy Net)
      → Sends (chunks (lines_of sep reads)) p (send_reads tcp ctx sep reads p)
  unfolding send_reads lines_of
  send_reads-Sends ctx sep [] p = nothing-Sends p
  send_reads-Sends ctx sep (read ∷ reads) p =
      turn-Sends (lines_of sep reads) (send_reads tcp ctx sep reads)
        (send_reads-Sends ctx sep reads) (context_error tcp ctx p.net) (outgoing sep read)
        (outgoing_ne sep read) p

  send_files-Sends :
      (ctx : Context) (sep : Bytes) (files : List File) (p : Proxy Net)
      → Sends (chunks (lines_of_files sep files)) p (send_files tcp ctx sep files p)
  unfolding send_files send_file
  send_files-Sends ctx sep [] p = nothing-Sends p
  send_files-Sends ctx sep (file ∷ files) p =
      let reads = reads_of (delimiter_of sep) file.ending file.content in
      rw (chunks-append (lines_of sep reads) (lines_of_files sep files)) (
        Sends-bind (chunks (lines_of sep reads)) _ p (send_reads tcp ctx sep reads p) _
          (send_reads-Sends ctx sep reads p) (send_files-Sends ctx sep files))

  header_written-Sends :
      (b header : Bytes) (p : Proxy Net) (r : Result (Unit {0}) × Proxy Net)
      → Sends b p r
      → Sends b p (header_written header r)
  header_written-Sends b header p (ok u, q) h = h
  header_written-Sends b header p (err e, q) h = record { delivered = λ done. absurd (cc) }
  header_written-Sends b header p (panic, q) h = h

  send_each_header-Sends :
      (headers : List Bytes) (p : Proxy Net)
      → Sends (head_of headers) p (send_each_header tcp headers p)
  unfolding send_each_header
  send_each_header-Sends [] p = nothing-Sends p
  send_each_header-Sends (header ∷ headers) p =
      let line = header ++ crlf in
      Sends-bind line _ p (header_written line (socket_write tcp line p)) _
        (header_written-Sends line line p _ (socket_write-Sends line p))
        (send_each_header-Sends headers)

  pub write-Sends :
      (ctx : Context) (sep : Bytes) (files : List File) (p : Proxy Net)
      → Sends
          (head_of (response_headers ++ [] ∷ [])
            ++ (chunks (lines_of_files sep files) ++ last_chunk))
          p
          (write tcp ctx files sep p)
  unfolding write send_headers
  write-Sends ctx sep files p =
      Sends-bind _ _ p (send_headers tcp response_headers p) _
        (send_each_header-Sends (response_headers ++ [] ∷ []) p)
        λ q.
          Sends-bind _ _ q (send_files tcp ctx sep files q) _ (send_files-Sends ctx sep files q)
            (socket_write-Sends last_chunk)

  pub close-Sends : (p : Proxy Net) → sent (close tcp p).net ≡ sent p.net
  unfolding close
  close-Sends p = ground (arith, net_appends.close_keeps p.net)
