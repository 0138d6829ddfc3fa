-- ===== src/Tests/Clients.antt =====
-- The service of the older protocol (cocaine/service.go).
use cocaine_framework_go.Prelude.{bytes, Bytes, ℤ, pos, true, false, List, [], ◌∷◌, ◌≡◌, refl, none}
use cocaine_framework_go.Effects.{blocked}
use cocaine_framework_go.Cocaine.Message.{chunk, choke, info}
use cocaine_framework_go.Cocaine.Pair.{
  ServiceRes, ChanPair, get_service_chan_pair, puts, closes, takes, sees_close, PairEvent, pair_run,
  see_stop, put, close_in, take_out, see_close,
}
use cocaine_framework_go.Cocaine.Pair.Order.{pair_complete, put_after_stop, put_all, stopped}
use cocaine_framework_go.Cocaine.Service.{Client, new_client, client_close, client_call_checked}
use cocaine_framework_go.Cocaine.Service.Steps.{
  ClientEvent, calls, hears, pair_moves, caller_takes, puts_to, closes_session, detaches,
  loses_connection,
}
use cocaine_framework_go.Cocaine.Service.Safety.{HasPairs, IsOpen}
use cocaine_framework_go.Prelude.Links.{insert-IsLinked, nothing-IsLinked}
use cocaine_framework_go.Cocaine.Service.Closed.{PanicsOrWaits, call_after_close}

abbrev answer : ServiceRes
answer = record { res = 7 ∷ []; failure = none }

abbrev answered : List PairEvent
answered = puts answer ∷ closes ∷ takes ∷ sees_close ∷ []

abbrev after_answer : ChanPair
after_answer = record { pending = []; in_closed = true; finished = true; ended = true }

pair_complete_example :
    (answer ∷ [] ≡ put_all answered)
    × (true ≡ true → stopped answered ≡ false → (answer ∷ [] ≡ put_all answered) × (true ≡ true))
unfolding pair_run put close_in take_out see_close
pair_complete_example = pair_complete answered after_answer (answer ∷ []) refl

abbrev stopped_pair : ChanPair
stopped_pair = record get_service_chan_pair { ended = true }

put_after_stop_example : put answer stopped_pair ≡ blocked
unfolding see_stop
put_after_stop_example = put_after_stop answer get_service_chan_pair stopped_pair refl refl

abbrev api : List (ℤ × Bytes)
api = (pos 4, bytes "read") ∷ []

-- A call is answered; its connection is lost; a second call reconnects. The loop of the old connection
-- ends step by step, with a move of the new call's goroutine in between.
abbrev story : List ClientEvent
story =
    calls (bytes "read") [] none
    ∷ hears (chunk (info (pos 4) (pos 1)) (7 ∷ []))
    ∷ pair_moves 0 caller_takes
    ∷ hears (choke (info (pos 6) (pos 1)))
    ∷ loses_connection
    ∷ calls (bytes "read") [] none
    ∷ puts_to answer 2
    ∷ pair_moves 1 caller_takes
    ∷ closes_session 2
    ∷ detaches 2
    ∷ []

-- One call is under way.
abbrev calling : Client
calling = record (new_client api) {
  sessions = record { links = (1, 0) ∷ []; counter = 1 };
  pairs = record { chan = get_service_chan_pair; stop_epoch = 0 } ∷ [];
}

calling-HasPairs : HasPairs calling
calling-HasPairs =
    insert-IsLinked IsOpen [] [] 1 (record { chan = get_service_chan_pair; stop_epoch = 0 }) refl
      (nothing-IsLinked IsOpen [])

abbrev closed_client : Client
closed_client = record calling { stop_closed = true; is_closed = true }

call_after_close_example : PanicsOrWaits (client_call_checked (bytes "read") [] none closed_client)
unfolding client_close
call_after_close_example =
    call_after_close (bytes "read") [] calling closed_client calling-HasPairs refl refl
