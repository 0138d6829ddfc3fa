-- ===== src/Cocaine/Socket/Steps.antt =====
-- cocaine/asocket.go: what happens to a socket, as events.
use cocaine_framework_go.Prelude.{Bytes, Bool, List, [], ◌∷◌}
use cocaine_framework_go.Effects.{Outcome, done, ◌>>=◌}
use cocaine_framework_go.Cocaine.Socket.{
  Writer, Outgoing, AsyncRwSocket, sock_write, rw_after_error, w_after_error, write_round, rw_close,
  rw_read_round, rw_receive, w_close, w_read_error, buff_sees_close,
}

-- What both sockets do: the client sends, writeloop writes.
pub data OutEvent : Type 0 where
  sends : Bytes → OutEvent
  writes : Bool → OutEvent

pub data RwEvent : Type 0 where
  goes_out : OutEvent → RwEvent
  reads : Bytes → Bool → RwEvent
  receives sees_closed_input closes : RwEvent

pub data WEvent : Type 0 where
  goes_out : OutEvent → WEvent
  read_fails closes : WEvent

unfoldable pub out_step : Writer → OutEvent → Outgoing → Outcome Outgoing
unfolding sock_write write_round
out_step after (sends x) o = sock_write x o
out_step after (writes succeeds) o = write_round after succeeds o

unfoldable pub rw_step : RwEvent → AsyncRwSocket → Outcome AsyncRwSocket
unfolding out_step rw_read_round rw_receive rw_close buff_sees_close
rw_step (RwEvent.goes_out e) s =
    out_step rw_after_error e s.out >>= λ o. done (record s { out = o })
rw_step (reads x fails) s = rw_read_round x fails s
rw_step receives s = rw_receive s
rw_step sees_closed_input s =
    buff_sees_close s.socket_to_client >>= λ b. done (record s { socket_to_client = b })
rw_step RwEvent.closes s = rw_close s

unfoldable pub rw_run : List RwEvent → AsyncRwSocket → Outcome AsyncRwSocket
unfolding rw_step
rw_run [] s = done s
rw_run (e ∷ es) s = rw_step e s >>= rw_run es

unfoldable pub w_step : WEvent → Outgoing → Outcome Outgoing
unfolding out_step w_close w_read_error
w_step (WEvent.goes_out e) o = out_step w_after_error e o
w_step read_fails o = done (w_read_error o)
w_step WEvent.closes o = w_close o

unfoldable pub w_run : List WEvent → Outgoing → Outcome Outgoing
unfolding w_step
w_run [] o = done o
w_run (e ∷ es) o = w_step e o >>= w_run es
