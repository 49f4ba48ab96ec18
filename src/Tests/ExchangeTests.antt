-- ===== src/Tests/ExchangeTests.antt =====
-- The theorems on calls with receivers beside them, at a database that answers in order.
use mathlib.Core.List.{Memᴰ}
use go_exasol.Connection.Query.{close}
use go_exasol.Base.{◌≢◌, ℕ, false, ◌≡◌, refl, true, List, [], ◌∷◌, ◌++◌, none, some, Bytes}
use go_exasol.Connection.Exchange.Channels.{receivers_can_send}
use go_exasol.Connection.Exchange.Closed.{abandoned_receiver_panics}
use go_exasol.Connection.Exchange.Replay.{replay}
use go_exasol.Connection.Exchange.Sequential.{Uncancelled-replay}
use go_exasol.Connection.Exchange.Stale.{Queues, stale_answer}
use go_exasol.Connection.Exchange.{Call, System, start, put, Step, Reaches}
use go_exasol.Connection.Send.{async_send, callback, abort, send_only}
use go_exasol.Base.Int.{pos}
use go_exasol.Connection.{Connection}
use go_exasol.Errors.{bad_conn}
use go_exasol.Result.{Result, ok, err, panic}
use go_exasol.Tests.Samples.{wire, config, message_of}
use go_exasol.Types.Decode.{lookup}
use go_exasol.Types.Requests.{read_command, read_request}
use go_exasol.Types.Encode.{to_json}
use go_exasol.Types.Json.{fields_of}
use go_exasol.Types.{fetch_command}
use go_exasol.Wire.{Wire, Context, background, cancellable}

abbrev arrived : List Bytes → Result Bytes × List Bytes
arrived [] = (err bad_conn, [])
arrived (m ∷ rest) = (ok m, rest)

-- The world is the answers that wait; each request is answered by itself.
abbrev fifo : Wire (List Bytes) ℕ Bytes
fifo = record {
  write_message = λ kind m w. (none, w ++ m ∷ []);
  read_message = arrived;
  close_socket = λ w. (none, w);
  cancelled = λ n w. none;
  marshal = λ request. ok (message_of request);
  decode_base = wire.decode_base;
  raw_text = wire.raw_text;
  decode_public_key = wire.decode_public_key;
  decode_auth = wire.decode_auth;
  decode_queries = wire.decode_queries;
  decode_prepared = wire.decode_prepared;
  decode_result_set = wire.decode_result_set;
  decode_fetched = wire.decode_fetched;
  decode_row_count = wire.decode_row_count;
  compress = wire.compress;
  uncompress = wire.uncompress;
}

fifo-Queues : Queues fifo (λ w. w) (λ m. m ∷ [])
fifo-Queues = record { writes = λ kind m w. (refl, refl); reads = λ m rest w e. rw e refl }

abbrev plugged : Connection (List Bytes)
plugged = record {
  config = record config { compression = false };
  connected = true;
  is_closed = false;
  world = [];
}

-- A fetch from a position, which the database answers with the position.
abbrev fetch : ℕ → Context → Call ℕ Bytes Bytes
fetch position ctx = record {
  context = ctx;
  request = fetch_command 0 position (pos 0);
  read = λ raw. ok raw;
}

stale_answer_example :
    (s : System (List Bytes) ℕ Bytes Bytes) × Reaches fifo (start plugged) s
    × (s.returned
        ≡ (fetch 2 background, ok (1 ∷ [])) ∷ (fetch 1 (cancellable 0), err bad_conn) ∷ [])
unfolding read_request to_json lookup fields_of read_command
stale_answer_example =
    stale_answer fifo fifo-Queues (fetch 1 (cancellable 0)) (fetch 2 background) 0 bad_conn plugged
      refl refl refl refl refl refl refl refl (λ e. cc)

-- A fetch that is sent and waits.
abbrev waiting : System (List Bytes) ℕ Bytes Bytes
waiting = record {
  connection = record plugged { world = (1 ∷ []) ∷ [] };
  selecting = some (0, fetch 1 background);
  receivers = (0, λ raw. ok raw) ∷ [];
  channels = λ n. none;
  channels_made = 1;
  returned = [];
}

waits : Reaches fifo (start plugged) waiting
unfolding async_send read_request lookup fields_of read_command
waits = Reaches.step Reaches.here (Step.call (start plugged) (fetch 1 background) _ refl refl)

-- The fetch has its answer.
abbrev fetched : System (List Bytes) ℕ Bytes Bytes
fetched = record waiting {
  connection = plugged;
  selecting = none;
  receivers = [];
  channels = put 0 (ok (1 ∷ [])) (λ n. none);
  returned = (fetch 1 background, ok (1 ∷ [])) ∷ [];
}

fetches : Reaches fifo (start plugged) fetched
unfolding callback
fetches =
    Reaches.step
      (Reaches.step waits (
        Step.receive waiting [] [] 0 (λ raw. ok raw) (ok (1 ∷ [])) plugged refl refl (λ e. cc)
          refl))
      (Step.respond _ 0 (fetch 1 background) (ok (1 ∷ [])) refl refl)

Uncancelled-replay_example :
    replay fifo fetched.returned plugged ≡ (fetched.returned, fetched.connection)
Uncancelled-replay_example = Uncancelled-replay fifo plugged fetches (refl, tt) refl

-- Two requests wait to be answered: the fetch, and its abortion.
abbrev aborted : Connection (List Bytes)
aborted = record plugged { world = (1 ∷ []) ∷ [] ∷ [] }

aborted_closes : (close fifo aborted).0 ≡ ok tt
unfolding close send_only read_request lookup fields_of read_command
aborted_closes = refl

abandoned_receiver_panics_example :
    (s : System (List Bytes) ℕ Bytes Bytes) × Reaches fifo (start plugged) s
    × ((s.connection ≡ aborted)
        × (s.returned ≡ (fetch 1 (cancellable 0), err bad_conn) ∷ [])
        × Memᴰ (0, λ raw. ok raw) s.receivers
        × ((callback fifo {A = Bytes} (λ raw. ok raw) (close fifo s.connection).1).0 ≡ panic))
unfolding async_send abort read_request lookup fields_of read_command
abandoned_receiver_panics_example =
    abandoned_receiver_panics fifo (fetch 1 (cancellable 0)) 0 bad_conn plugged
      (record plugged { world = (1 ∷ []) ∷ [] }) aborted refl refl refl (λ e. cc aborted_closes)

-- A second fetch is under way, and the receiver of the first one, which was cancelled, still stands.
abbrev doubled : System (List Bytes) ℕ Bytes Bytes
doubled = record {
  connection = record plugged { world = (1 ∷ []) ∷ [] ∷ (2 ∷ []) ∷ [] };
  selecting = some (1, fetch 2 background);
  receivers = (1, λ raw. ok raw) ∷ (0, λ raw. ok raw) ∷ [];
  channels = λ n. none;
  channels_made = 2;
  returned = (fetch 1 (cancellable 0), err bad_conn) ∷ [];
}

doubles : Reaches fifo (start plugged) doubled
unfolding async_send abort read_request lookup fields_of read_command
doubles =
    Reaches.step
      (Reaches.step
        (Reaches.step Reaches.here
          (Step.call (start plugged) (fetch 1 (cancellable 0)) _ refl refl))
        (Step.cancel _ 0 0 (fetch 1 (cancellable 0)) bad_conn (err bad_conn) aborted refl refl
          refl))
      (Step.call _ (fetch 2 background) _ refl refl)

receivers_can_send_example :
    (doubled.channels 0 ≡ none)
    × ((m : ℕ) (other : Bytes → Result Bytes)
        → Memᴰ {A = ℕ × (Bytes → Result Bytes)} (m, other) ((1, λ raw. ok raw) ∷ [])
        → m ≢ 0)
receivers_can_send_example =
    receivers_can_send fifo plugged ((1, λ raw. ok raw) ∷ []) [] 0 (λ raw. ok raw) doubles refl
