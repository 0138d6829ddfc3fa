-- ===== src/Cocaine/Pair.antt =====
-- cocaine/service.go: getServiceChanPair. The service sends results on In, the caller receives
-- them from Out, and a goroutine between them keeps what was not received yet.
pub mod Order
use cocaine_framework_go.Prelude.{
  Bytes, ℤ, if◌then◌else◌, Bool, true, false, not, ◌&&◌, List, [], ◌∷◌, ◌++◌, Option,
}
use cocaine_framework_go.Effects.{
  Outcome, done, panic, blocked, ◌>>=◌, close_of_closed_channel, send_on_closed_channel,
}
use cocaine_framework_go.Errors.{Error}

pub record ServiceRes : Type 0 where
  pub res : Bytes
  pub failure : Option Error

-- The variables of the goroutine, and whether In is closed.
pub record ChanPair : Type 0 where
  pub pending : List ServiceRes
  pub in_closed : Bool
  pub finished : Bool
  -- the goroutine has returned; Out is closed
  pub ended : Bool

abbrev pub get_service_chan_pair : ChanPair
get_service_chan_pair = record { pending = []; in_closed = false; finished = false; ended = false }

abbrev is_empty {ℓ} : {A : Type ℓ} → List A → Bool
is_empty [] = true
is_empty (x ∷ xs) = false

-- The head of a round.
unfoldable pub pair_round : ChanPair → ChanPair
pair_round p = if is_empty p.pending && p.finished then record p { ended = true } else p

-- `ch <- r`, which meets `incoming, ok := <-In`.
unfoldable pub put : ServiceRes → ChanPair → Outcome ChanPair
unfolding pair_round
put r p =
    if p.in_closed
    then panic send_on_closed_channel
    else if p.ended
    then blocked
    else done (pair_round (record p { pending = p.pending ++ r ∷ [] }))

-- close(ch)
unfoldable pub close_in : ChanPair → Outcome ChanPair
close_in p =
    if p.in_closed then panic close_of_closed_channel else done (record p { in_closed = true })

-- `case out <- first`, with the caller who receives.
unfoldable pub take_out : ChanPair → Outcome (ChanPair × List ServiceRes)
unfolding pair_round
take_out p = if p.ended then blocked else elim p.pending [
  | [] ↦ blocked
  | first ∷ rest ↦ done (pair_round (record p { pending = rest }), first ∷ [])
]

-- `case incoming, ok := <-In` on the closed channel.
unfoldable pub see_close : ChanPair → Outcome ChanPair
unfolding pair_round
see_close p =
    if not p.ended && (p.in_closed && not p.finished)
    then done (pair_round (record p { finished = true }))
    else blocked

-- `case <-stop`
unfoldable pub see_stop : Bool → ChanPair → Outcome ChanPair
see_stop stop_closed p =
    if not p.ended && stop_closed then done (record p { ended = true }) else blocked

-- What happens to a pair: the service puts a result or closes In, the caller receives, the
-- goroutine sees that In or the service is closed.
pub data PairEvent : Type 0 where
  puts : ServiceRes → PairEvent
  closes takes sees_close sees_stop : PairEvent

-- A pair and what the caller has received.
unfoldable pub pair_step :
    PairEvent → ChanPair × List ServiceRes → Outcome (ChanPair × List ServiceRes)
pair_step (puts r) (p, got) = put r p >>= λ q. done (q, got)
pair_step closes (p, got) = close_in p >>= λ q. done (q, got)
pair_step takes (p, got) = take_out p >>= λ (q, first). done (q, got ++ first)
pair_step sees_close (p, got) = see_close p >>= λ q. done (q, got)
pair_step sees_stop (p, got) = see_stop true p >>= λ q. done (q, got)

unfoldable pub pair_run :
    List PairEvent → ChanPair × List ServiceRes → Outcome (ChanPair × List ServiceRes)
unfolding pair_step
pair_run [] s = done s
pair_run (e ∷ es) s = pair_step e s >>= pair_run es
