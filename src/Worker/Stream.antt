-- ===== src/Worker/Stream.antt =====
-- cocaine12/handler.go: type request. The goroutine of `loop` moves messages from the worker to
-- the handler; the worker and the handler meet it at unbuffered channels.
pub mod Order
pub mod Drain
use cocaine_framework_go.Prelude.{
  ◌==◌, if◌then◌else◌, Bytes, ℤ, Bool, true, false, ◌&&◌, not, List, [], ◌∷◌, ◌++◌, Option, none,
  some, ◌≡◌,
}
use cocaine_framework_go.Errors.{
  Error, Result, ok, err, stream_is_closed, bad_payload, malformed_error_message, request,
  context_done,
}
use cocaine_framework_go.Effects.{
  Outcome, done, panic, blocked, ◌>>=◌, index_out_of_range, close_of_closed_channel,
}
use cocaine_framework_go.Message.{Value, byte_slice, Message, v1_write}

pub record Stream : Type 0 where
  -- the queue of the loop
  pub pending : List Message
  -- the channel `closed` of the request is closed
  pub closed : Bool
  -- the loop has seen that: its variable `closed` is nil
  pub seen : Bool
  -- the loop has returned, and toHandler is closed
  pub ended : Bool

abbrev pub new_request : Stream
new_request = record { pending = []; closed = false; seen = false; ended = false }

abbrev is_empty {ℓ} : {A : Type ℓ} → List A → Bool
is_empty [] = true
is_empty (x ∷ xs) = false

-- The head of the loop's round: it returns on an empty queue if no message can come any more.
pub round : Stream → Stream
round s = if is_empty s.pending && s.seen then record s { ended = true } else s

-- `request.fromWorker <- msg` meets `incoming := <-input`; it waits for ever on a loop that has
-- returned.
unfoldable pub push : Message → Stream → Outcome Stream
unfolding round
push msg s =
    if s.ended then blocked else done (round (record s { pending = s.pending ++ msg ∷ [] }))

unfoldable pub close : Stream → Outcome Stream
close s = if s.closed then panic close_of_closed_channel else done (record s { closed = true })

-- The case `out <- first`, with the handler at the other end.
unfoldable pub hand_over : Stream → Outcome (Stream × List Message)
unfolding round
hand_over s = elim s.pending [
  | [] ↦ blocked
  | first ∷ rest ↦ done (round (record s { pending = rest }), first ∷ [])
]

-- The case `<-closed`.
unfoldable pub notice_close : Stream → Outcome Stream
unfolding round
notice_close s =
    if not s.ended && (s.closed && not s.seen)
    then done (round (record s { seen = true }))
    else blocked

-- What can happen to a stream: the worker pushes and closes, the loop hands over and notices.
pub data StreamEvent : Type 0 where
  pushes : Message → StreamEvent
  closes hands notices : StreamEvent

abbrev pub silent : Outcome Stream → Outcome (Stream × List Message)
silent m = m >>= λ s. done (s, [])

-- The stream after an event, and the messages that the handler received in it.
unfoldable pub stream_step : StreamEvent → Stream → Outcome (Stream × List Message)
unfolding push close hand_over notice_close
stream_step (pushes msg) s = silent (push msg s)
stream_step closes s = silent (close s)
stream_step hands s = hand_over s
stream_step notices s = silent (notice_close s)

-- The messages received earlier stand first.
abbrev pub after_messages :
    List Message → Outcome (Stream × List Message) → Outcome (Stream × List Message)
after_messages first m = m >>= λ q. done (q.0, first ++ q.1)

unfoldable pub stream_run : List StreamEvent → Stream → Outcome (Stream × List Message)
stream_run [] s = done (s, [])
stream_run (e ∷ es) s = stream_step e s >>= λ r. after_messages r.1 (stream_run es r.0)

-- The select of Read: a message, a closed channel, or the end of the context.
pub data Received : Type 0 where
  message : Message → Received
  channel_closed cancelled : Received

-- request.Read. `convert` is convertPayload with its target, a pair of numbers and a text.
module _ (convert : List Value → Result (ℤ × ℤ × Bytes)) where
  read_chunk : List Value → Outcome (Result Bytes)
  read_chunk [] = panic index_out_of_range
  read_chunk (byte_slice b ∷ rest) = done (ok b)
  read_chunk (_ ∷ rest) = done (err bad_payload)

  read_error : List Value → Result Bytes
  read_error [] = err malformed_error_message
  read_error (x ∷ rest) = elim (convert (x ∷ rest)) [
    | err e ↦ err e
    | ok (category, code, text) ↦ err (request category code text)
  ]

  unfoldable pub read : Received → Outcome (Result Bytes)
  unfolding read_chunk read_error
  read (message msg) =
      if msg.msg_type == v1_write then read_chunk msg.payload else done (read_error msg.payload)
  read channel_closed = done (err stream_is_closed)
  read cancelled = done (err context_done)
