-- ===== src/Tests/Sockets.antt =====
-- A socket of cocaine12/asocket.go.
use cocaine_framework_go.Prelude.{◌≡◌, ◌≤◌, length, refl, true, List, [], ◌∷◌, ◌++◌, some}
use cocaine_framework_go.Effects.{done}
use cocaine_framework_go.Message.{Message}
use cocaine_framework_go.Socket
use cocaine_framework_go.Socket.Buffer.{new_async_buf, accept, send_first}
use cocaine_framework_go.Socket.{
  Socket, SocketEvent, to_buffer, sends, writes, reads, receives, closes, flushed, flush_failed,
  writing, blackhole, new_async_rw, socket_run, socket_step,
}
use cocaine_framework_go.Socket.Wire.{sent, decoded, wire_order, received_order}

abbrev first : Message
first = record { session = 2; msg_type = 0; payload = []; headers = [] }

abbrev second : Message
second = record { session = 3; msg_type = 0; payload = []; headers = [] }

abbrev third : Message
third = record { session = 4; msg_type = 0; payload = []; headers = [] }

-- The flush of the second message fails, and so does the next Encode; then the client closes the
-- socket.
abbrev history : List SocketEvent
history =
    sends to_buffer first
    ∷ sends to_buffer second
    ∷ writes flushed
    ∷ reads (some third)
    ∷ writes flush_failed
    ∷ sends to_buffer third
    ∷ sends to_buffer first
    ∷ writes flushed
    ∷ receives
    ∷ closes
    ∷ []

abbrev failed : Socket
failed = record new_async_rw {
  upstream = record new_async_buf { pending = first ∷ []; stop_closed = true };
  downstream = record new_async_buf { stop_closed = true };
  closed = true;
  conn_closes = 1;
  writer = blackhole;
  wire = first ∷ [];
  unflushed = second ∷ [];
  dropped = third ∷ [];
  received = third ∷ [];
}

history_fails : socket_run history new_async_rw ≡ done failed
unfolding socket_run socket_step Socket.send accept Socket.write_round send_first Socket.read_round
    Socket.write_message Socket.receive Socket.close
history_fails = refl

wire_order_example :
    (failed.wire ++ (failed.unflushed ++ (failed.dropped ++ failed.upstream.pending))
      ≡ sent history)
    × (length failed.unflushed ≤ 1)
    × (failed.writer ≡ writing → failed.dropped ≡ [])
    × (failed.writer ≡ blackhole → failed.closed ≡ true)
wire_order_example = wire_order history failed history_fails

received_order_example : failed.received ++ failed.downstream.pending ≡ decoded history
received_order_example = received_order history failed history_fails

abbrev closed_once : Socket
closed_once = record new_async_rw {
  upstream = record new_async_buf { stop_closed = true };
  downstream = record new_async_buf { stop_closed = true };
  closed = true;
  conn_closes = 1;
}

closes_once : Socket.close new_async_rw ≡ done closed_once
unfolding Socket.close
closes_once = refl
