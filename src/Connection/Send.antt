-- ===== src/Connection/Send.antt =====
-- `asyncSend`, `callback` and `Send` of pkg/connection/websocket.go. What is logged is left out. The
-- receiver that a cancelled `Send` leaves behind reads nothing here;
-- Exchange has it.
use go_exasol.Base.{ℕ, Bool, true, false, Option, none, some, Bytes, lit, equal, if◌then◌else◌}
use go_exasol.Connection.{M, return, fail, lift, ◌>>=◌, ◌>>◌, on_world, from_world, instead}
use go_exasol.Errors.{
  Error, bad_conn, bad_status, unparsed, new_sql_err, new_err_could_not_abort,
  new_websocket_not_connected,
}
use go_exasol.Result.{Result, ok, err, panic}
use go_exasol.Types.Encode.{to_json}
use go_exasol.Types.{Request, abort_query_command, BaseResponse, Exception}
use go_exasol.Wire.{Wire, Context, background, cancellable}

-- `websocket.TextMessage` and `websocket.BinaryMessage`
abbrev pub text_message : ℕ
text_message = 1

abbrev pub binary_message : ℕ
binary_message = 2

module _ {World V Raw : Type 0} (wire : Wire World V Raw) where
  abbrev pub checked : Option Error → M World (Unit {0})
  checked none = return tt
  checked (some e) = fail bad_conn

  -- From the test for a nil websocket on.
  unfoldable pub write : ℕ → Bytes → M World (Unit {0})
  write kind message c =
      if c.connected
      then (do e ← on_world (wire.write_message kind message); checked e) c
      else (err (new_websocket_not_connected message), c)

  -- The message as it goes out, compressed or not.
  unfoldable pub write_message : Bool → Bytes → M World (Unit {0})
  unfolding write
  write_message true message = do
    compressed ← lift (wire.compress message)
    write binary_message compressed
  write_message false message = write text_message message

  unfoldable pub async_send : Request V → M World (Unit {0})
  unfolding write_message to_json
  async_send request c =
      (lift (instead bad_conn (wire.marshal (to_json request)))
          >>= write_message c.config.compression)
        c

  -- Decoding of the response data; `none` stands for a nil response.
  abbrev pub unmarshal : {A : Type 0} → (Raw → Result A) → Raw → Result A
  unmarshal decode raw = elim (decode raw) [
    | ok a ↦ ok a
    | err e ↦ err (unparsed (wire.raw_text raw) e)
    | panic ↦ panic
  ]

  abbrev pub rejected : {A : Type 0} → Bytes → Option Exception → Result A
  rejected status (some x) = err (new_sql_err x.sql_code x.text)
  rejected status none = err (bad_status status)

  -- What `callback` returns once the message is read and uncompressed.
  abbrev pub interpret : {A : Type 0} → (Raw → Result A) → BaseResponse Raw → Result A
  interpret read r =
      if equal r.status (lit "ok") then read r.response_data else rejected r.status r.exception

  abbrev pub uncompressed : Bool → Bytes → Result Bytes
  uncompressed true message = instead bad_conn (wire.uncompress message)
  uncompressed false message = ok message

  unfoldable pub callback : {A : Type 0} → (Raw → Result A) → M World A
  callback read c =
      if c.connected
      then (do
        message ← from_world (λ w. let (r, w') = wire.read_message w in (instead bad_conn r, w'))
        plain ← lift (uncompressed c.config.compression message)
        response ← lift (instead bad_conn (wire.decode_base plain))
        lift (interpret read response))
          c
      else (panic, c)

  -- The `select`: with a background context only the response can arrive.
  abbrev pub done_first : Context → World → Option Error
  done_first background w = none
  done_first (cancellable n) w = wire.cancelled n w

  abbrev pub aborted : {A B : Type 0} → Error → Result A → Result B
  aborted cause (ok a) = err cause
  aborted cause (err e) = err (new_err_could_not_abort cause)
  aborted cause panic = panic

  unfoldable pub abort : {A : Type 0} → Error → M World A
  unfolding async_send
  abort cause c = let (r, c') = async_send abort_query_command c in (aborted cause r, c')

  abbrev pub send_with : {A : Type 0} → Context → Request V → (Raw → Result A) → M World A
  send_with ctx request read = do
    async_send request
    λ c. elim (done_first ctx c.world) [ none ↦ callback read c | some cause ↦ abort cause c ]

  -- `Send` with a response to fill, and with a nil one.
  unfoldable pub send : {A : Type 0} → Context → Request V → (Raw → Result A) → M World A
  unfolding async_send callback abort
  send ctx request decode = send_with ctx request (unmarshal decode)

  unfoldable pub send_only : Context → Request V → M World (Unit {0})
  unfolding async_send callback abort
  send_only ctx request = send_with ctx request (λ raw. ok tt)
