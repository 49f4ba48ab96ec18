-- ===== src/Connection.antt =====
-- The state of pkg/connection/connection.go, lines 26 to 31, and the way its methods are chained:
-- a call takes the connection and returns its outcome with the connection after it.
pub mod Send
pub mod Exchange
pub mod Query
pub mod Frame
pub mod Login
pub mod Session
pub mod Closing
pub mod Tls
pub mod Connect
pub mod Reach
pub mod Pinned
use go_exasol.Base.{Bool, Option, none, some}
use go_exasol.Config.{Config}
use go_exasol.Errors.{Error}
use go_exasol.Result.{Result, ok, err, panic}

-- `connected` tells that the field `websocket` is not nil; the world holds the socket's state.
pub record Connection (World : Type 0) : Type 0 where
  pub config : Config
  pub connected : Bool
  pub is_closed : Bool
  pub world : World

abbrev pub M : Type 0 → Type 0 → Type 0
M World A = Connection World → Result A × Connection World

-- The errors of a call are replaced by one.
abbrev pub instead : {A : Type 0} → Error → Result A → Result A
instead e (ok a) = ok a
instead e (err x) = err e
instead e panic = panic

module _ {World : Type 0} where
  abbrev pub return : {A : Type 0} → A → M World A
  return a c = (ok a, c)

  abbrev pub fail : {A : Type 0} → Error → M World A
  fail e c = (err e, c)

  -- A result that does not depend on the connection.
  abbrev pub lift : {A : Type 0} → Result A → M World A
  lift r c = (r, c)

  abbrev pub continue :
      {A B : Type 0} → Result A × Connection World → (A → M World B) → Result B × Connection World
  continue (ok a, c) f = f a c
  continue (err e, c) f = (err e, c)
  continue (panic, c) f = (panic, c)

  infixl 5 ◌>>=◌ ◌>>◌
  abbrev pub ◌>>=◌ : {A B : Type 0} → M World A → (A → M World B) → M World B
  ◌>>=◌ m f c = continue (m c) f

  abbrev pub ◌>>◌ : {B : Type 0} → M World (Unit {0}) → M World B → M World B
  m >> k = m >>= λ _. k

  -- A call on the world that reports an error or nil.
  abbrev pub on_world : (World → Option Error × World) → M World (Option Error)
  on_world f c = let (e, w) = f c.world in (ok e, record c { world = w })

  -- A call on the world that returns a value or an error.
  abbrev pub from_world : {A : Type 0} → (World → Result A × World) → M World A
  from_world f c = let (r, w) = f c.world in (r, record c { world = w })
