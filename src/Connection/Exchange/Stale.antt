-- ===== src/Connection/Exchange/Stale.antt =====
-- What the call behind a cancelled `Send` gets from a database that answers in order.
use go_exasol.Base.{ℕ, ◌≡◌, ◌≢◌, refl, ◌∙◌, true, false, List, [], ◌∷◌, ◌++◌, none, Bytes}
use go_exasol.Connection.Exchange.{Call, System, start, Step, Reaches}
use go_exasol.Connection.Send.{
  async_send, write_message, write, callback, abort, interpret, text_message,
}
use go_exasol.Connection.{Connection, instead, continue, lift}
use go_exasol.Errors.{Error, bad_conn}
use go_exasol.Result.{Result, ok, err, panic}
use go_exasol.Types.Encode.{to_json}
use go_exasol.Types.{Request, abort_query_command}
use go_exasol.Wire.{Wire, cancellable}

-- A socket whose messages arrive in the order in which the database answers: a request that is
-- written puts its answers behind the messages that wait to be read.
pub record Queues {World V Raw : Type 0} (wire : Wire World V Raw) (inbox : World → List Bytes)
    (answers : Bytes → List Bytes) : Type 0 where
  pub writes :
      (kind : ℕ) (message : Bytes) (w : World)
      → ((wire.write_message kind message w).0 ≡ none)
        × (inbox (wire.write_message kind message w).1 ≡ inbox w ++ answers message)
  pub reads :
      (message : Bytes) (rest : List Bytes) (w : World)
      → inbox w ≡ message ∷ rest
      → (wire.read_message w).0 ≡ ok message

-- A connection that is connected and does not compress.
record IsPlain {World : Type 0} (c : Connection World) : Type 0 where
  pub connected : c.connected ≡ true
  pub compression : c.config.compression ≡ false

continue-lift :
    {World A B : Type 0} (r : Result A) (f : A → Result B) (c : Connection World)
    → continue (r, c) (λ a. lift (f a)) ≡ (elim r [ ok a ↦ f a | err e ↦ err e | panic ↦ panic ], c)
continue-lift (ok a) f c = refl
continue-lift (err e) f c = refl
continue-lift panic f c = refl

module _ {World V Raw : Type 0} (wire : Wire World V Raw) where
  -- A message, decoded and read.
  abbrev pub decoded : {A : Type 0} → (Raw → Result A) → Bytes → Result A
  decoded read message = elim (instead bad_conn (wire.decode_base message)) [
    | ok response ↦ interpret wire read response
    | err e ↦ err e
    | panic ↦ panic
  ]

  module _ {inbox : World → List Bytes} {answers : Bytes → List Bytes}
      (queues : Queues wire inbox answers) where
    abbrev written : Bytes → World → World
    written message w = (wire.write_message text_message message w).1

    async_send_writes :
        (request : Request V) (message : Bytes) (c : Connection World)
        → IsPlain c
        → wire.marshal (to_json request) ≡ ok message
        → async_send wire request c ≡ (ok tt, record c { world = written message c.world })
    unfolding async_send write_message write
    async_send_writes request message c plain m = rw m (
        rw plain.compression
          (rw plain.connected (rw (queues.writes text_message message c.world).0 refl)))

    callback_reads :
        {A : Type 0} (read : Raw → Result A) (message : Bytes) (rest : List Bytes)
        (c : Connection World)
        → IsPlain c
        → inbox c.world ≡ message ∷ rest
        → callback wire read c
          ≡ (decoded read message, record c { world = (wire.read_message c.world).1 })
    unfolding callback
    callback_reads read message rest c plain i = rw plain.connected (
        rw (queues.reads message rest c.world i) (
          rw plain.compression
            (continue-lift (instead bad_conn (wire.decode_base message)) (interpret wire read) _)))

    -- On a connected socket without compression on which no message waits, and whose messages arrive
    -- in the order of the answers: behind a `Send` whose context ended before its answer was read,
    -- the next `Send` can return the answer to the former, decoded as its own, unless the decoding
    -- panics. The receiver that was left behind waits, and the new one reads what arrives first.
    pub stale_answer :
        {A : Type 0} (first second : Call V Raw A) (k : ℕ) (cause : Error) (c : Connection World)
        {first_message second_message aborting answer : Bytes} {rest : List Bytes}
        → c.connected ≡ true
        → c.config.compression ≡ false
        → inbox c.world ≡ []
        → first.context ≡ cancellable k
        → wire.marshal (to_json first.request) ≡ ok first_message
        → wire.marshal (to_json abort_query_command) ≡ ok aborting
        → wire.marshal (to_json second.request) ≡ ok second_message
        → answers first_message ≡ answer ∷ rest
        → decoded second.read answer ≢ panic
        → (s : System World V Raw A) × Reaches wire (start c) s
          × (s.returned ≡ (second, decoded second.read answer) ∷ (first, err cause) ∷ [])
    stale_answer {A} first second k cause c {first_message} {second_message} {aborting} {answer}
          {rest} connected compression idle ctx first_marshalled abort_marshalled second_marshalled
          replies ne =
        (
          _,
          Reaches.step
              (Reaches.step
                (Reaches.step
                  (Reaches.step
                    (Reaches.step Reaches.here (
                      Step.call (start c) first _ refl (
                        async_send_writes first.request first_message c (plain c.world)
                          first_marshalled)))
                    (Step.cancel _ 0 k first cause (err cause) _ refl ctx (gives_up _ (plain _))))
                  (Step.call _ second _ refl (
                    async_send_writes second.request second_message _ (plain _) second_marshalled)))
                (Step.receive _ [] _ 1 second.read (decoded second.read answer) _ refl
                  (callback_reads second.read answer _ _ (plain _) arrived) ne refl))
              (Step.respond _ 1 second (decoded second.read answer) refl refl),
          refl,
        )
      where
        plain : (w : World) → IsPlain (record c { world = w })
        plain w = record { connected = connected; compression = compression }

        sent : inbox (written first_message c.world) ≡ answer ∷ rest
        sent = (queues.writes text_message first_message c.world).1 ∙ rw idle replies

        both :
            inbox (written aborting (written first_message c.world))
            ≡ answer ∷ rest ++ answers aborting
        both =
            (queues.writes text_message aborting (written first_message c.world)).1 ∙ rw sent refl

        arrived :
            inbox (written second_message (written aborting (written first_message c.world)))
            ≡ answer ∷ (rest ++ answers aborting) ++ answers second_message
        arrived =
            (queues.writes text_message second_message
              (written aborting (written first_message c.world))).1
            ∙ rw both refl

        gives_up :
            (d : Connection World)
            → IsPlain d
            → abort wire {A = A} cause d
              ≡ (err cause, record d { world = written aborting d.world })
        gives_up d p =
            unfold abort in
            rw (async_send_writes abort_query_command aborting d p abort_marshalled) refl
