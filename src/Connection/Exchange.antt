-- ===== src/Connection/Exchange.antt =====
-- `Send` of pkg/connection/websocket.go, lines 61 to 78, with its goroutines: the calls of one caller
-- and the receivers that they start, as interleaved steps. A panic ends the program, so it is no
-- step.
pub mod Replay
pub mod Sequential
pub mod Stale
pub mod Closed
pub mod Channels
use go_exasol.Base.{
  ℕ, ◌+◌, ◌==◌, ◌≡◌, ◌≢◌, List, [], ◌∷◌, ◌++◌, Option, none, some, if◌then◌else◌, arith,
}
use go_exasol.Connection.Send.{async_send, callback, abort}
use go_exasol.Connection.{Connection}
use go_exasol.Errors.{Error}
use go_exasol.Result.{Result, ok, err, panic}
use go_exasol.Types.{Request}
use go_exasol.Wire.{Wire, Context, cancellable}

-- The arguments of a `Send`; `read` decodes the response data, or ignores them for a nil response.
pub record Call (V Raw A : Type 0) : Type 0 where
  pub context : Context
  pub request : Request V
  pub read : Raw → Result A

-- The connection with the goroutines that work on it. A receiver stands until it has sent its result
-- on its channel, which holds one value; a channel is named by the number of channels made before.
pub record System (World V Raw A : Type 0) : Type 0 where
  pub connection : Connection World
  pub selecting : Option (ℕ × Call V Raw A)
  pub receivers : List (ℕ × (Raw → Result A))
  pub channels : ℕ → Option (Result A)
  pub channels_made : ℕ
  -- what the calls returned, the last one first
  pub returned : List (Call V Raw A × Result A)

abbrev pub start : {World V Raw A : Type 0} → Connection World → System World V Raw A
start c = record {
  connection = c;
  selecting = none;
  receivers = [];
  channels = λ n. none;
  channels_made = 0;
  returned = [];
}

-- The channels after one of them is sent a value.
abbrev pub put : {A : Type 0} → ℕ → A → (ℕ → Option A) → ℕ → Option A
put n a channels m = if m == n then some a else channels m

pub put_same :
    {A : Type 0} (n : ℕ) (a : A) (channels : ℕ → Option A) {m : ℕ}
    → m ≡ n
    → put n a channels m ≡ some a
put_same n a channels e = ground arith

module _ {World V Raw A : Type 0} (wire : Wire World V Raw) where
  pub data Step : System World V Raw A → System World V Raw A → Type 0 where
    -- `Send` returns the error of `asyncSend`.
    refuse :
        (s : System World V Raw A) (call : Call V Raw A) (e : Error) (c : Connection World)
        → s.selecting ≡ none
        → async_send wire call.request s.connection ≡ (err e, c)
        → Step s (record s { connection = c; returned = (call, err e) ∷ s.returned })
    -- `Send` has sent the request, made a channel and started a receiver.
    call :
        (s : System World V Raw A) (call : Call V Raw A) (c : Connection World)
        → s.selecting ≡ none
        → async_send wire call.request s.connection ≡ (ok tt, c)
        → Step s (record s {
          connection = c;
          selecting = some (s.channels_made, call);
          receivers = (s.channels_made, call.read) ∷ s.receivers;
          channels_made = s.channels_made + 1;
        })
    -- One of the receivers reads a message and sends what it makes of it on its channel, which has to
    -- be empty.
    receive :
        (s : System World V Raw A) (before after : List (ℕ × (Raw → Result A))) (n : ℕ)
        (read : Raw → Result A) (r : Result A) (c : Connection World)
        → s.receivers ≡ before ++ (n, read) ∷ after
        → callback wire read s.connection ≡ (r, c)
        → r ≢ panic
        → s.channels n ≡ none
        → Step s (record s {
          connection = c;
          receivers = before ++ after;
          channels = put n r s.channels;
        })
    -- The `select` takes the value of the channel.
    respond :
        (s : System World V Raw A) (n : ℕ) (call : Call V Raw A) (r : Result A)
        → s.selecting ≡ some (n, call)
        → s.channels n ≡ some r
        → Step s (record s { selecting = none; returned = (call, r) ∷ s.returned })
    -- The `select` takes the end of the context; the receiver stays.
    cancel :
        (s : System World V Raw A) (n k : ℕ) (call : Call V Raw A) (cause : Error) (r : Result A)
        (c : Connection World)
        → s.selecting ≡ some (n, call)
        → call.context ≡ cancellable k
        → abort wire cause s.connection ≡ (r, c)
        → Step s (record s { connection = c; selecting = none; returned = (call, r) ∷ s.returned })

  pub data Reaches (s : System World V Raw A) : System World V Raw A → Type 0 where
    here : Reaches s s
    step : {t u : System World V Raw A} → Reaches s t → Step t u → Reaches s u
