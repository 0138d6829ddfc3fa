-- ===== src/Socket/Buffer.antt =====
-- cocaine12/asocket.go: asyncBuff. The rounds of its loop are functions on its state.
use cocaine_framework_go.Prelude.{if◌then◌else◌, Bool, true, false, not, ◌&&◌, List, [], ◌∷◌, ◌++◌}
use cocaine_framework_go.Effects.{Outcome, done, panic, blocked, close_of_closed_channel}
use cocaine_framework_go.Message.{Message}

pub record AsyncBuff : Type 0 where
  pub pending : List Message
  -- the channel `in` is closed, and the loop has seen that
  pub in_closed : Bool
  pub finished : Bool
  -- the channel `stop` is closed
  pub stop_closed : Bool
  -- a timeout channel came over `stop`: the case on `stopped` is off
  pub draining : Bool
  -- the loop has returned; `out` and `wait` are closed
  pub ended : Bool

abbrev pub new_async_buf : AsyncBuff
new_async_buf = record {
  pending = [];
  in_closed = false;
  finished = false;
  stop_closed = false;
  draining = false;
  ended = false;
}

abbrev is_empty {ℓ} : {A : Type ℓ} → List A → Bool
is_empty [] = true
is_empty (x ∷ xs) = false

-- The head of a round.
pub buffer_round : AsyncBuff → AsyncBuff
buffer_round b = if is_empty b.pending && b.finished then record b { ended = true } else b

-- `case incoming, open := <-input` with a message.
unfoldable pub accept : Message → AsyncBuff → Outcome AsyncBuff
unfolding buffer_round
accept msg b =
    if b.ended
    then blocked
    else if b.finished
    then blocked
    else done (buffer_round (record b { pending = b.pending ++ msg ∷ [] }))

-- `case out <- candidate`, with the receiver of the message.
unfoldable pub send_first : AsyncBuff → Outcome (AsyncBuff × List Message)
unfolding buffer_round
send_first b = if b.ended then blocked else elim b.pending [
  | [] ↦ blocked
  | candidate ∷ rest ↦ done (buffer_round (record b { pending = rest }), candidate ∷ [])
]

-- close(bf.in), close(bf.stop)
unfoldable pub close_in : AsyncBuff → Outcome AsyncBuff
close_in b =
    if b.in_closed then panic close_of_closed_channel else done (record b { in_closed = true })

unfoldable pub close_stop : AsyncBuff → Outcome AsyncBuff
close_stop b =
    if b.stop_closed then panic close_of_closed_channel else done (record b { stop_closed = true })

-- The other cases of the select: the closed input, the closed `stop`, a timeout channel from
-- Drain, and the end of that timeout.
pub data BufferEvent : Type 0 where
  sees_closed_input sees_stop starts_draining times_out : BufferEvent

unfoldable pub buffer_step : BufferEvent → AsyncBuff → Outcome AsyncBuff
unfolding buffer_round
buffer_step sees_closed_input b =
    if not b.ended && (b.in_closed && not b.finished)
    then done (buffer_round (record b { finished = true }))
    else blocked
buffer_step sees_stop b =
    if not b.ended && (b.stop_closed && not b.draining)
    then done (record b { ended = true })
    else blocked
buffer_step starts_draining b =
    if not b.ended && (not b.stop_closed && not b.draining)
    then done (record b { draining = true })
    else blocked
buffer_step times_out b =
    if not b.ended && b.draining then done (record b { ended = true }) else blocked
