-- ===== src/Connection/Exchange/Closed.antt =====
-- The receiver of a cancelled `Send` on a connection that is closed behind it.
use mathlib.Core.List.{Memᴰ}
use go_exasol.Base.{ℕ, ◌≡◌, ◌≢◌, refl, false, [], ◌∷◌}
use go_exasol.Connection.Closing.{close-closed}
use go_exasol.Connection.Exchange.{Call, System, start, Step, Reaches}
use go_exasol.Connection.Query.{close}
use go_exasol.Connection.Send.{async_send, callback, abort}
use go_exasol.Connection.{Connection}
use go_exasol.Errors.{Error}
use go_exasol.Result.{Result, ok, err, panic}
use go_exasol.Wire.{Wire, cancellable}

module _ {World V Raw A : Type 0} (wire : Wire World V Raw) where
  callback_unconnected :
      (read : Raw → Result A) (c : Connection World)
      → c.connected ≡ false
      → (callback wire read c).0 ≡ panic
  unfolding callback
  callback_unconnected read c h = rw h refl

  -- Where a `Send` is cancelled before its receiver runs, with the abortion sent, and a `Close`
  -- returns then, the receiver is still there and panics when it runs: it reads from the websocket
  -- that `Close` has set to nil.
  pub abandoned_receiver_panics :
      (call : Call V Raw A) (k : ℕ) (cause : Error) (c d e : Connection World)
      → call.context ≡ cancellable k
      → async_send wire call.request c ≡ (ok tt, d)
      → abort wire {A = A} cause d ≡ (err cause, e)
      → (close wire e).0 ≢ panic
      → (s : System World V Raw A) × Reaches wire (start c) s
        × ((s.connection ≡ e)
            × (s.returned ≡ (call, err cause) ∷ [])
            × Memᴰ (0, call.read) s.receivers
            × ((callback wire call.read (close wire s.connection).1).0 ≡ panic))
  abandoned_receiver_panics call k cause c d e ctx sent aborted returned = (
    _,
    Reaches.step (Reaches.step Reaches.here (Step.call (start c) call d refl sent))
        (Step.cancel _ 0 k call cause (err cause) e refl ctx aborted),
    (
      refl,
      refl,
      Memᴰ.head refl,
      callback_unconnected call.read (close wire e).1 (close-closed wire e returned).1,
    ),
  )
