-- ===== src/Proxy/Delivery.antt =====
-- What the database receives from `Write`.
use go_exasol.Base.{
  ℕ, ◌≡◌, ◌≢◌, refl, sym, ap, ◌∙◌, Option, none, some, List, [], ◌∷◌, ◌++◌, Bytes, arith,
  append-nil, append_assoc, length,
}
use go_exasol.Effect.{continue}
use go_exasol.Proxy.Chunk.{chunk, show_hex, crlf}
use go_exasol.Proxy.Decode.{concat, chunks, last_chunk}
use go_exasol.Proxy.Lines.{lines_of, outgoing_ne}
use go_exasol.Proxy.Send.{
  header_written, File, Read, reads_of, outgoing, delimiter_of, chunked_write, send_reads,
  send_file, send_files, send_each_header, send_headers, response_headers, write,
}
use go_exasol.Proxy.{Tcp, Proxy, P, socket_write, context_error}
use go_exasol.Result.{Result, ok, err, panic}
use go_exasol.Wire.{Context}

-- The lines of all files.
abbrev pub lines_of_files : Bytes → List File → List Bytes
lines_of_files sep [] = []
lines_of_files sep (file ∷ files) =
    lines_of sep (reads_of (delimiter_of sep) file.ending file.content) ++ lines_of_files sep files

-- The headers, each on its line, and an empty line.
abbrev pub head_of : List Bytes → Bytes
head_of [] = []
head_of (header ∷ headers) = (header ++ crlf) ++ head_of headers

-- A network that takes every write and never sees the context done: `sent` is what it has taken.
pub record Takes {Net : Type 0} (tcp : Tcp Net) (ctx : Context) (sent : Net → Bytes) : Type 0 where
  pub takes : (b : Bytes) (n : Net) → (tcp.write b n).0 ≡ none
  pub keeps : (b : Bytes) (n : Net) → sent (tcp.write b n).1 ≡ sent n ++ b
  pub goes_on : (n : Net) → context_error tcp ctx n ≡ none

pub chunks-append : (xs ys : List Bytes) → chunks (xs ++ ys) ≡ chunks xs ++ chunks ys
chunks-append [] ys = refl
chunks-append (x ∷ xs) ys =
    rw (chunks-append xs ys) (sym (append_assoc (chunk x) (chunks xs) (chunks ys)))

pub concat-append : (xs ys : List Bytes) → concat (xs ++ ys) ≡ concat xs ++ concat ys
concat-append [] ys = refl
concat-append (x ∷ xs) ys = rw (concat-append xs ys) (sym (append_assoc x (concat xs) (concat ys)))

module _ {Net : Type 0} (tcp : Tcp Net) (ctx : Context) (sent : Net → Bytes)
    (net_takes : Takes tcp ctx sent) where
  -- A call that succeeds, and in which these bytes are sent.
  pub record Delivers (bytes : Bytes) (p : Proxy Net) (r : Result (Unit {0}) × Proxy Net)
      : Type 0 where
    pub succeeds : r.0 ≡ ok tt
    pub delivered : sent r.1.net ≡ sent p.net ++ bytes
    pub unclosed : r.1.is_closed ≡ p.is_closed

  pub socket_write-Delivers : (b : Bytes) (p : Proxy Net) → Delivers b p (socket_write tcp b p)
  socket_write-Delivers b p = ground (arith, net_takes.takes b p.net, net_takes.keeps b p.net)

  pub Delivers-bind :
      (a b : Bytes) (p : Proxy Net) (r : Result (Unit {0}) × Proxy Net) (f : P Net (Unit {0}))
      → Delivers a p r
      → ((q : Proxy Net) → Delivers b q (f q))
      → Delivers (a ++ b) p (continue r (λ u. f))
  Delivers-bind a b p (ok u, q) f h k = record {
    succeeds = (k q).succeeds;
    delivered = (k q).delivered ∙ ap (λ s. s ++ b) h.delivered ∙ append_assoc (sent p.net) a b;
    unclosed = (k q).unclosed ∙ h.unclosed;
  }
  Delivers-bind a b p (err e, q) f h k = absurd (let e = h.succeeds in cc)
  Delivers-bind a b p (panic, q) f h k = absurd (let e = h.succeeds in cc)

  pub nothing-Delivers : (p : Proxy Net) → Delivers [] p (ok tt, p)
  nothing-Delivers p = record {
    succeeds = refl;
    delivered = sym (append-nil (sent p.net));
    unclosed = refl;
  }

  chunked_write-Delivers :
      (c : ℕ) (line : Bytes) (p : Proxy Net)
      → Delivers (chunk (c ∷ line)) p (chunked_write tcp (c ∷ line) p)
  unfolding chunked_write
  chunked_write-Delivers c line p =
      let size = show_hex (length (c ∷ line)) ++ crlf in
      Delivers-bind size _ p (socket_write tcp size p) _ (socket_write-Delivers size p) λ q.
        Delivers-bind (c ∷ line) crlf q (socket_write tcp (c ∷ line) q) _
          (socket_write-Delivers (c ∷ line) q) (socket_write-Delivers crlf)

  -- One turn of the loop, before the turns that send `lines`.
  turn-Delivers :
      (lines : List Bytes) (next : P Net (Unit {0}))
      → ((q : Proxy Net) → Delivers (chunks lines) q (next q))
      → (o : Option Bytes) → o ≢ some []
      → (p : Proxy Net)
      → Delivers
          (chunks (elim o as (λ x. List Bytes) [ none ↦ [] | some l ↦ l ∷ lines ]))
          p
          (elim o as (λ x. Result (Unit {0}) × Proxy Net) [
            | none ↦ (ok tt, p)
            | some l ↦ continue (chunked_write tcp l p) (λ u. next)
          ])
  turn-Delivers lines next k none h p = nothing-Delivers p
  turn-Delivers lines next k (some []) h p = absurd (h refl)
  turn-Delivers lines next k (some (c ∷ l)) h p =
      Delivers-bind (chunk (c ∷ l)) _ p (chunked_write tcp (c ∷ l) p) _
        (chunked_write-Delivers c l p) k

  send_reads-Delivers :
      (sep : Bytes) (reads : List Read) (p : Proxy Net)
      → Delivers (chunks (lines_of sep reads)) p (send_reads tcp ctx sep reads p)
  unfolding send_reads lines_of
  send_reads-Delivers sep [] p = nothing-Delivers p
  send_reads-Delivers sep (read ∷ reads) p =
      rw (net_takes.goes_on p.net, send_reads)
        (turn-Delivers (lines_of sep reads) (send_reads tcp ctx sep reads)
          (send_reads-Delivers sep reads) (outgoing sep read) (outgoing_ne sep read) p)

  send_files-Delivers :
      (sep : Bytes) (files : List File) (p : Proxy Net)
      → Delivers (chunks (lines_of_files sep files)) p (send_files tcp ctx sep files p)
  unfolding send_files send_file
  send_files-Delivers sep [] p = nothing-Delivers p
  send_files-Delivers sep (file ∷ files) p =
      let reads = reads_of (delimiter_of sep) file.ending file.content in
      rw (chunks-append (lines_of sep reads) (lines_of_files sep files)) (
        Delivers-bind (chunks (lines_of sep reads)) _ p (send_reads tcp ctx sep reads p) _
          (send_reads-Delivers sep reads p) (send_files-Delivers sep files))

  header_written-Delivers :
      (b header : Bytes) (p : Proxy Net) (r : Result (Unit {0}) × Proxy Net)
      → Delivers b p r
      → Delivers b p (header_written header r)
  header_written-Delivers b header p (ok u, q) h = h
  header_written-Delivers b header p (err e, q) h = absurd (let e = h.succeeds in cc)
  header_written-Delivers b header p (panic, q) h = h

  send_each_header-Delivers :
      (headers : List Bytes) (p : Proxy Net)
      → Delivers (head_of headers) p (send_each_header tcp headers p)
  unfolding send_each_header
  send_each_header-Delivers [] p = nothing-Delivers p
  send_each_header-Delivers (header ∷ headers) p =
      let line = header ++ crlf in
      Delivers-bind line _ p (header_written line (socket_write tcp line p)) _
        (header_written-Delivers line line p _ (socket_write-Delivers line p))
        (send_each_header-Delivers headers)

  pub write-Delivers :
      (sep : Bytes) (files : List File) (p : Proxy Net)
      → Delivers
          (head_of (response_headers ++ [] ∷ [])
            ++ (chunks (lines_of_files sep files) ++ last_chunk))
          p
          (write tcp ctx files sep p)
  unfolding write send_headers
  write-Delivers sep files p =
      Delivers-bind _ _ p (send_headers tcp response_headers p) _
        (send_each_header-Delivers (response_headers ++ [] ∷ []) p)
        λ q.
          Delivers-bind _ _ q (send_files tcp ctx sep files q) _ (send_files-Delivers sep files q)
            (socket_write-Delivers last_chunk)
