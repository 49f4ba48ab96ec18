-- ===== src/Proxy/Handshake.antt =====
-- The handshake of `StartProxy`.
use go_exasol.Base.{
  some, ℕ, ◌^◌, ◌<◌, ◌≡◌, refl, List, [], ◌∷◌, ◌++◌, Bytes, arith, replicate, Lacks, zero, suc,
}
use go_exasol.Base.Int.{pos}
use go_exasol.Effect.{continue}
use go_exasol.Proxy.Start.{
  start_proxy, await_reply, send_words, le32, magic_words, decode_reply, explaining,
}
use go_exasol.Proxy.Delivery.{
  Takes, Delivers, Delivers-bind, socket_write-Delivers, nothing-Delivers,
}
use go_exasol.Wire.{background}
use go_exasol.Proxy.{Tcp, Proxy}
use go_exasol.Result.{Result, ok, err, panic}
use go_exasol.Text.{trim_left, trim_right}
use go_exasol.Text.Laws.{cons_unless_ne}

trim_right-replicate : (n : ℕ) → trim_right 0 (replicate n 0) ≡ []
unfolding trim_right
trim_right-replicate zero = refl
trim_right-replicate (suc n) = rw (trim_right-replicate n) refl

-- The padding is cut off.
trim_right-zeros : (n : ℕ) (s : Bytes) → Lacks 0 s → trim_right 0 (s ++ replicate n 0) ≡ s
unfolding trim_right
trim_right-zeros n [] h = trim_right-replicate n
trim_right-zeros n (c ∷ s) h = rw (trim_right-zeros n s h.1) (cons_unless_ne 0 c s h.0)

trim_left-Lacks : (s : Bytes) → Lacks 0 s → trim_left 0 s ≡ s
unfolding trim_left
trim_left-Lacks [] h = refl
trim_left-Lacks (c ∷ s) h = ground arith

decode_reply-le32 :
    (start port : ℕ) (host : Bytes)
    → port < 2 ^ 32
    → decode_reply (le32 start ++ (le32 port ++ host)) ≡ some (record { port = port; host = host })
unfolding decode_reply le32
decode_reply-le32 start port host h = ground arith

abbrev pub words_of : List ℕ → Bytes
words_of [] = []
words_of (word ∷ words) = le32 word ++ words_of words

module _ {Net : Type 0} (tcp : Tcp Net) (sent : Net → Bytes)
    (net_takes : Takes tcp background sent) where
  explaining-Delivers :
      (b text : Bytes) (p : Proxy Net) (r : Result (Unit {0}) × Proxy Net)
      → Delivers tcp background sent net_takes b p r
      → Delivers tcp background sent net_takes b p (explaining text r)
  explaining-Delivers b text p (ok u, q) h = h
  explaining-Delivers b text p (err e, q) h = absurd (let e = h.succeeds in cc)
  explaining-Delivers b text p (panic, q) h = h

  send_words-Delivers :
      (words : List ℕ) (p : Proxy Net)
      → Delivers tcp background sent net_takes (words_of words) p (send_words tcp words p)
  unfolding send_words
  send_words-Delivers [] p = nothing-Delivers tcp background sent net_takes p
  send_words-Delivers (word ∷ words) p =
      Delivers-bind tcp background sent net_takes (le32 word) _ p _ _
        (explaining-Delivers (le32 word) _ p _
          (socket_write-Delivers tcp background sent net_takes (le32 word) p))
        (send_words-Delivers words)

  module _ (start port padding : ℕ) (host : Bytes) (bound : port < 2 ^ 32) (lacks : Lacks 0 host)
      (replies : (n : Net)
        → (tcp.read_full 24 n).0 ≡ ok (le32 start ++ (le32 port ++ (host ++ replicate padding 0))))
      (silent : (n : Net) → sent (tcp.read_full 24 n).1 ≡ sent n) where
    -- The proxy has the address that the database names, and these bytes are sent.
    pub record IsStarted (bytes : Bytes) (p : Proxy Net) (r : Result (Unit {0}) × Proxy Net)
        : Type 0 where
      pub succeeds : r.0 ≡ ok tt
      pub host_is : r.1.host ≡ host
      pub port_is : r.1.port ≡ pos port
      pub delivered : sent r.1.net ≡ sent p.net ++ bytes

    await_reply-IsStarted :
        (b : Bytes) (p : Proxy Net) (r : Result (Unit {0}) × Proxy Net)
        → Delivers tcp background sent net_takes b p r
        → IsStarted b p (continue r (λ u. await_reply tcp))
    unfolding await_reply
    await_reply-IsStarted b p (ok u, q) h = ground (
      arith,
      replies q.net,
      silent q.net,
      decode_reply-le32 start port (host ++ replicate padding 0) bound,
      trim_right-zeros padding host lacks,
      trim_left-Lacks host lacks,
    )
    await_reply-IsStarted b p (err e, q) h = absurd (let e = h.succeeds in cc)
    await_reply-IsStarted b p (panic, q) h = absurd (let e = h.succeeds in cc)

    pub start_proxy-IsStarted :
        (p : Proxy Net) → IsStarted (words_of magic_words) p (start_proxy tcp p)
    unfolding start_proxy
    start_proxy-IsStarted p =
        await_reply-IsStarted (words_of magic_words) p (send_words tcp magic_words p)
          (send_words-Delivers magic_words p)
