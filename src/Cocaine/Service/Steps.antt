-- ===== src/Cocaine/Service/Steps.antt =====
-- cocaine/service.go: what happens to a service, as events.
use cocaine_framework_go.Prelude.{
  ℕ, ◌||◌, ltb, Bytes, Bool, true, List, [], ◌∷◌, Option, none, some, get_elem?,
}
use cocaine_framework_go.Errors.{Error}
use cocaine_framework_go.Effects.{Outcome, done, blocked, ◌>>=◌}
use cocaine_framework_go.Message.{Value}
use cocaine_framework_go.Cocaine.Message.{MessageInterface}
use cocaine_framework_go.Cocaine.Pair.{ServiceRes, take_out, see_close, see_stop}
use cocaine_framework_go.Cocaine.Service.{
  OpenPair, Client, put_to, close_open, detached, new_socket, on_pair, round_in, client_message,
  client_loop_end, client_close, client_reconnect, client_call_checked,
}

-- What the goroutine of a pair does, with its caller.
pub data PairMove : Type 0 where
  caller_takes goroutine_sees_close goroutine_sees_stop : PairMove

-- A call, a message and the end of a loop as a whole, and the steps of which they consist, so that those
-- of a loop and those of a Reconnect may alternate: what one of them sends to a session, its close of
-- a session's channel, a Detach, and the new socket. A send or a close looks its session up in the
-- same step; the end of a loop keeps the channel that it has found for its send until its close. The loop of an old connection may end late: it has no test of the connection.
pub data ClientEvent : Type 0 where
  calls : Bytes → List Value → Option Error → ClientEvent
  hears : MessageInterface → ClientEvent
  reconnects : Bool → Option Error → ClientEvent
  pair_moves : ℕ → PairMove → ClientEvent
  puts_to : ServiceRes → ℕ → ClientEvent
  closes_session detaches : ℕ → ClientEvent
  opens_socket : Option Error → ClientEvent
  loses_connection loop_ends closes_service : ClientEvent

-- The channel `stop` that a goroutine waits on is closed once Reconnect has made a new one.
unfoldable pub move_pair : PairMove → Client → OpenPair → Outcome OpenPair
move_pair caller_takes s p = round_in s.epoch (λ c. take_out c >>= λ (q, first). done q) p
move_pair goroutine_sees_close s p = round_in s.epoch see_close p
move_pair goroutine_sees_stop s p =
    round_in s.epoch (see_stop (s.stop_closed || ltb p.stop_epoch s.epoch)) p

unfoldable pub client_step : ClientEvent → Client → Outcome Client
unfolding move_pair put_to close_open detached new_socket client_message client_loop_end
    client_close client_reconnect client_call_checked
client_step (calls name args resolved) s =
    client_call_checked name args resolved s >>= λ r. done (r.0)
client_step (hears msg) s = client_message msg s
client_step (reconnects force resolved) s = client_reconnect force resolved s >>= λ r. done (r.0)
client_step (pair_moves i m) s = elim (get_elem? s.pairs i) [
  | none ↦ blocked
  | some p ↦ on_pair (move_pair m s) i s
]
client_step (puts_to r id) s = put_to r id s
client_step (closes_session id) s = close_open id s
client_step (detaches id) s = done (detached id s)
client_step (opens_socket resolved) s = new_socket resolved s >>= λ r. done (r.0)
client_step loses_connection s = done (record s { is_closed = true })
client_step loop_ends s = client_loop_end s
client_step closes_service s = client_close s

unfoldable pub client_run : List ClientEvent → Client → Outcome Client
unfolding client_step
client_run [] s = done s
client_run (e ∷ es) s = client_step e s >>= client_run es
