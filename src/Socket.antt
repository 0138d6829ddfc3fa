-- ===== src/Socket.antt =====
-- cocaine12/asocket.go: the socket with its two buffers and the goroutines that write and read.
-- The connection and the codec are the environment: an event says how an Encode or a Decode ends.
pub mod Buffer
pub mod Steps
pub mod Wire
use cocaine_framework_go.Prelude.{
  ℕ, suc, if◌then◌else◌, Bool, true, false, List, [], ◌∷◌, ◌++◌, Option, none, some,
}
use cocaine_framework_go.Effects.{Outcome, done, panic, blocked, ◌>>=◌, close_of_closed_channel}
use cocaine_framework_go.Message.{Message}
use Buffer.{
  AsyncBuff, BufferEvent, new_async_buf, close_in, close_stop, accept, send_first, buffer_step,
}

-- The goroutine of writeloop: it writes, or drops what it receives after an error.
pub data Writer : Type 0 where
  writing blackhole : Writer

pub record Socket : Type 0 where
  pub upstream : AsyncBuff
  pub downstream : AsyncBuff
  -- the broadcast channel `closed`
  pub closed : Bool
  pub conn_closes : ℕ
  pub writer : Writer
  -- the goroutine of readloop has not returned
  pub reading : Bool
  -- what was flushed to the connection, what was encoded although its flush failed, and what the
  -- writer dropped
  pub wire : List Message
  pub unflushed : List Message
  pub dropped : List Message
  -- what the client received
  pub received : List Message

abbrev pub new_async_rw : Socket
new_async_rw = record {
  upstream = new_async_buf;
  downstream = new_async_buf;
  closed = false;
  conn_closes = 0;
  writer = writing;
  reading = true;
  wire = [];
  unflushed = [];
  dropped = [];
  received = [];
}

-- asyncRWSocket.close
unfoldable pub close_conn : Socket → Socket
close_conn s = if s.closed then s else record s { closed = true; conn_closes = suc s.conn_closes }

-- asyncRWSocket.Close
unfoldable pub close : Socket → Outcome Socket
unfolding close_stop close_conn
close s = close_stop s.upstream >>= λ up. close_stop s.downstream >>= λ down.
    done (close_conn (record s { upstream = up; downstream = down }))

-- Send: the message meets the upstream loop, or is dropped once the socket is closed.
pub data SendCase : Type 0 where
  to_buffer on_closed : SendCase

unfoldable pub send : SendCase → Message → Socket → Outcome Socket
send to_buffer msg s = accept msg s.upstream >>= λ up. done (record s { upstream = up })
send on_closed msg s = if s.closed then done s else blocked

-- How Encode and the Flush after it end, if there is a Flush. The code does not look at the error
-- of Flush.
pub data Written : Type 0 where
  flushed flush_failed encode_failed : Written

-- A bufio.Writer that has met an error accepts nothing more: an Encode after a failed Flush fails.
abbrev pub outcome : List Message → Written → Written
outcome [] r = r
outcome (m ∷ ms) r = encode_failed

-- What the writer does with a message from the upstream buffer.
abbrev pub after_encode : Written → List Message → Socket → Socket
unfolding close_conn
after_encode flushed msgs s = record s { wire = s.wire ++ msgs }
after_encode flush_failed msgs s = record s { unflushed = s.unflushed ++ msgs }
after_encode encode_failed msgs s =
    close_conn (record s { writer = blackhole; dropped = s.dropped ++ msgs })

unfoldable pub write_message : Writer → Written → List Message → Socket → Socket
unfolding close_conn
write_message writing r msgs s = after_encode (outcome s.unflushed r) msgs s
write_message blackhole r msgs s = record s { dropped = s.dropped ++ msgs }

-- One round of writeloop.
unfoldable pub write_round : Written → Socket → Outcome Socket
write_round r s =
    send_first s.upstream >>= λ x. done (write_message s.writer r x.1 (record s { upstream = x.0 }))

-- One round of readloop; `none` is an error of Decode.
unfoldable pub read_round : Option Message → Socket → Outcome Socket
unfolding close_conn
read_round (some msg) s =
    if s.reading
    then (accept msg s.downstream >>= λ down. done (record s { downstream = down }))
    else blocked
read_round none s =
    if s.reading
    then (close_in s.downstream >>= λ down.
        done (close_conn (record s { downstream = down; reading = false })))
    else blocked

-- The client receives from Read().
unfoldable pub receive : Socket → Outcome Socket
receive s = send_first s.downstream >>= λ r.
    done (record s { downstream = r.0; received = s.received ++ r.1 })

pub data SocketEvent : Type 0 where
  sends : SendCase → Message → SocketEvent
  writes : Written → SocketEvent
  reads : Option Message → SocketEvent
  receives closes : SocketEvent
  upstream_moves downstream_moves : BufferEvent → SocketEvent

unfoldable pub socket_step : SocketEvent → Socket → Outcome Socket
socket_step (sends c msg) s = send c msg s
socket_step (writes encoded) s = write_round encoded s
socket_step (reads m) s = read_round m s
socket_step receives s = receive s
socket_step closes s = close s
socket_step (upstream_moves e) s =
    buffer_step e s.upstream >>= λ up. done (record s { upstream = up })
socket_step (downstream_moves e) s =
    buffer_step e s.downstream >>= λ down. done (record s { downstream = down })

unfoldable pub socket_run : List SocketEvent → Socket → Outcome Socket
socket_run [] s = done s
socket_run (e ∷ es) s = socket_step e s >>= socket_run es
