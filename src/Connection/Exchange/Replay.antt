-- ===== src/Connection/Exchange/Replay.antt =====
-- Calls of `Send` one after another on one goroutine.
use go_exasol.Base.{◌≡◌, refl, List, [], ◌∷◌}
use go_exasol.Connection.Exchange.{Call}
use go_exasol.Connection.Send.{async_send, callback, send_with}
use go_exasol.Connection.{Connection}
use go_exasol.Errors.{Error}
use go_exasol.Result.{Result, ok, err}
use go_exasol.Wire.{Wire, background}

-- Every context is one that is never done.
abbrev pub Uncancelled : {V Raw A : Type 0} → List (Call V Raw A × Result A) → Type 0
Uncancelled [] = Unit {0}
Uncancelled ((call, r) ∷ rest) = (call.context ≡ background) × Uncancelled rest

module _ {World V Raw A : Type 0} (wire : Wire World V Raw) where
  -- `Send` called again and again on one goroutine; the last call stands first, as in a history.
  unfoldable pub replay :
      List (Call V Raw A × Result A)
      → Connection World
      → List (Call V Raw A × Result A) × Connection World
  replay [] c = ([], c)
  replay ((call, r) ∷ earlier) c =
      let (history, d) = replay earlier c in
      let (result, e) = send_with wire call.context call.request call.read d in
      ((call, result) ∷ history, e)

  pub replay-cons :
      (call : Call V Raw A) (r : Result A) (earlier : List (Call V Raw A × Result A))
      (c d e : Connection World)
      → replay earlier c ≡ (earlier, d)
      → send_with wire call.context call.request call.read d ≡ (r, e)
      → replay ((call, r) ∷ earlier) c ≡ ((call, r) ∷ earlier, e)
  unfolding replay
  replay-cons call r earlier c d e p q = rw p (rw q refl)

  pub send_refused :
      (call : Call V Raw A) (x : Error) (d e : Connection World)
      → async_send wire call.request d ≡ (err x, e)
      → send_with wire call.context call.request call.read d ≡ (err x, e)
  send_refused call x d e h = rw h refl

  pub send_answered :
      (call : Call V Raw A) (r : Result A) (c d e : Connection World)
      → call.context ≡ background
      → async_send wire call.request c ≡ (ok tt, d)
      → callback wire call.read d ≡ (r, e)
      → send_with wire call.context call.request call.read c ≡ (r, e)
  send_answered call r c d e b h k = rw h (rw b k)
