-- ===== src/Proxy.antt =====
-- The state of pkg/proxy/proxy.go and the connection that it writes to: a TCP socket towards the
-- database, over which the database asks for a file by HTTP.
pub mod Chunk
pub mod Decode
pub mod Lines
pub mod Delivery
pub mod Success
pub mod Received
pub mod Handshake
pub mod Marks
pub mod Start
pub mod Send
use go_exasol.Base.{ℕ, Bool, true, false, Option, none, some, Bytes, if◌then◌else◌}
use go_exasol.Base.Int.{ℤ, pos}
use go_exasol.Effect.{Eff, checked}
use go_exasol.Errors.{Error}
use go_exasol.Result.{Result, ok}
use go_exasol.Wire.{Context, background, cancellable}

-- What `net` and the contexts do. `read_full` reads as many bytes as it is asked for.
pub record Tcp (Net : Type 0) : Type 0 where
  pub dial : Bytes → Net → Option Error × Net
  pub write : Bytes → Net → Option Error × Net
  pub read_full : ℕ → Net → Result Bytes × Net
  pub close : Net → Net
  pub cancelled : ℕ → Net → Option Error

-- `Proxy`: the network behind its connection is `net`.
pub record Proxy (Net : Type 0) : Type 0 where
  pub is_closed : Bool
  pub host : Bytes
  pub port : ℤ
  pub net : Net

abbrev pub P : Type 0 → Type 0 → Type 0
P Net A = Eff (Proxy Net) A

module _ {Net : Type 0} (tcp : Tcp Net) where
  -- `p.connection.Write`
  abbrev pub socket_write : Bytes → P Net (Unit {0})
  socket_write bytes p = let (e, n) = tcp.write bytes p.net in checked e (record p { net = n })

  -- `ctx.Err()`
  abbrev pub context_error : Context → Net → Option Error
  context_error background n = none
  context_error (cancellable k) n = tcp.cancelled k n

  -- `Close`
  unfoldable pub close : Proxy Net → Proxy Net
  close p = if p.is_closed then p else record p { net = tcp.close p.net; is_closed = true }
