-- ===== src/Proxy/Start.antt =====
-- `NewProxy` and `StartProxy` of pkg/proxy/proxy.go.
use go_exasol.Base.{
  ℕ, ◌+◌, ◌*◌, ◌/◌, ◌%◌, false, Option, none, some, List, [], ◌∷◌, ◌++◌, Bytes, lit,
}
use go_exasol.Base.Int.{ℤ, pos}
use go_exasol.Effect.{return, ◌>>=◌, ◌>>◌}
use go_exasol.Errors.{Error, err_invalid_proxy_conn, explained}
use go_exasol.Proxy.{Tcp, Proxy, P, socket_write}
use go_exasol.Result.{Result, ok, err, panic}
use go_exasol.Text.Decimal.{show}
use go_exasol.Text.{trim_left, trim_right}

-- A proxy, or a nil proxy with an error or without.
pub data Dialled (Net : Type 0) : Type 0 where
  proxy : Proxy Net → Dialled Net
  no_proxy : Option Error → Net → Dialled Net

-- The four bytes of a `uint32` in little-endian order, and back.
unfoldable pub le32 : ℕ → Bytes
le32 w = w % 256 ∷ w / 256 % 256 ∷ w / 65536 % 256 ∷ w / 16777216 % 256 ∷ []

-- The reply: a number that is not needed, the port, and the host. `read_full` returns 24 bytes.
pub record Reply : Type 0 where
  pub port : ℕ
  pub host : Bytes

unfoldable pub decode_reply : Bytes → Option Reply
decode_reply (_ ∷ _ ∷ _ ∷ _ ∷ a ∷ b ∷ c ∷ d ∷ host) =
    some (record { port = a + b * 256 + c * 65536 + d * 16777216; host = host })
decode_reply bytes = none

abbrev pub explaining : {Net A : Type 0} → Bytes → Result A × Proxy Net → Result A × Proxy Net
explaining text (ok a, p) = (ok a, p)
explaining text (err e, p) = (err (explained err_invalid_proxy_conn text e), p)
explaining text (panic, p) = (panic, p)

abbrev pub magic_words : List ℕ
magic_words = 0x02212102 ∷ 1 ∷ 1 ∷ []

module _ {Net : Type 0} (tcp : Tcp Net) where
  unfoldable pub dial_each : List Bytes → ℤ → Option Error → Net → Dialled Net
  dial_each [] port failed n = no_proxy failed n
  dial_each (host ∷ hosts) port failed n =
      let uri = host ++ b':' ∷ show port in
      let (e, n') = tcp.dial uri n in
      elim e [
        | none ↦ proxy (record { is_closed = false; host = []; port = pos 0; net = n' })
        | some x ↦
            dial_each hosts port
              (some (
                explained err_invalid_proxy_conn (lit "could not create TCP connection to " ++ uri)
                  x))
              n'
      ]

  -- `NewProxy`
  unfoldable pub new_proxy : List Bytes → ℤ → Net → Dialled Net
  unfolding dial_each
  new_proxy hosts port = dial_each hosts port none

  unfoldable pub send_words : List ℕ → P Net (Unit {0})
  unfolding le32
  send_words [] = return tt
  send_words (word ∷ words) = do
    λ p. explaining (lit "could not send magic words") (socket_write tcp (le32 word) p)
    send_words words

  abbrev read_reply : P Net Bytes
  read_reply p =
      let (r, n) = tcp.read_full 24 p.net in
      explaining (lit "could not read from TCP connection to get internal host and port")
        (r, record p { net = n })

  abbrev answered : Option Reply → P Net (Unit {0})
  answered none p = (panic, p)
  answered (some reply) p =
      (ok tt, record p { port = pos reply.port; host = trim_left 0 (trim_right 0 reply.host) })

  -- From the reading of the reply on.
  unfoldable pub await_reply : P Net (Unit {0})
  unfolding decode_reply
  await_reply = do reply ← read_reply; answered (decode_reply reply)

  -- `StartProxy`
  unfoldable pub start_proxy : P Net (Unit {0})
  unfolding send_words await_reply
  start_proxy = do send_words magic_words; await_reply
