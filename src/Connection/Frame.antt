-- ===== src/Connection/Frame.antt =====
-- What a request leaves alone: it changes the world only.
use go_exasol.Base.{◌≡◌, Option, none, some, arith}
use go_exasol.Connection.Send.{async_send, callback, send, send_only, send_with, abort, done_first}
use go_exasol.Connection.{Connection, continue}
use go_exasol.Errors.{Error}
use go_exasol.Result.{Result, ok, err, panic}
use go_exasol.Types.{Request, abort_query_command}
use go_exasol.Wire.{Wire, Context}

pub record SameSession {World : Type 0} (c c' : Connection World) : Type 0 where
  pub config : c'.config ≡ c.config
  pub connected : c'.connected ≡ c.connected
  pub is_closed : c'.is_closed ≡ c.is_closed

module _ {World V Raw : Type 0} (wire : Wire World V Raw) where
  async_send-SameSession :
      (request : Request V) (c : Connection World) → SameSession c (async_send wire request c).1
  unfolding async_send
  async_send-SameSession request c = ground arith

  pub callback-SameSession :
      {A : Type 0} (read : Raw → Result A) (c : Connection World)
      → SameSession c (callback wire read c).1
  unfolding callback
  callback-SameSession read c = ground arith

  abort-SameSession :
      (A : Type 0) (cause : Error) (c : Connection World)
      → SameSession c (abort wire {A = A} cause c).1
  unfolding abort
  abort-SameSession A cause c = ground (arith, async_send-SameSession abort_query_command c)

  pub trans : (c d e : Connection World) → SameSession c d → SameSession d e → SameSession c e
  trans c d e h k = ground arith

  pub continue-SameSession :
      {A B : Type 0} (c : Connection World) (r : Result A × Connection World)
      (f : A → Connection World → Result B × Connection World)
      → SameSession c r.1
      → ((a : A) (d : Connection World) → SameSession d (f a d).1)
      → SameSession c (continue r f).1
  continue-SameSession c (ok a, d) f h k = trans c d (f a d).1 h (k a d)
  continue-SameSession c (err e, d) f h k = h
  continue-SameSession c (panic, d) f h k = h

  send_with-SameSession :
      {A : Type 0} (ctx : Context) (request : Request V) (read : Raw → Result A)
      (c : Connection World)
      → SameSession c (send_with wire ctx request read c).1
  send_with-SameSession {A} ctx request read c =
      continue-SameSession c (async_send wire request c) _ (async_send-SameSession request c)
        λ u d. answer d (done_first wire ctx d.world)
    where
      answer :
          (d : Connection World) (first : Option Error)
          → SameSession d
              (elim first as (λ f. Result A × Connection World) [
                | none ↦ callback wire read d
                | some cause ↦ abort wire cause d
              ]).1
      answer d none = callback-SameSession read d
      answer d (some cause) = abort-SameSession A cause d

  pub send-SameSession :
      {A : Type 0} (ctx : Context) (request : Request V) (decode : Raw → Result A)
      (c : Connection World)
      → SameSession c (send wire ctx request decode c).1
  unfolding send
  send-SameSession ctx request decode c = send_with-SameSession ctx request _ c

  pub send_only-SameSession :
      (ctx : Context) (request : Request V) (c : Connection World)
      → SameSession c (send_only wire ctx request c).1
  unfolding send_only
  send_only-SameSession ctx request c = send_with-SameSession ctx request _ c
