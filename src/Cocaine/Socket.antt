-- ===== src/Cocaine/Socket.antt =====
-- cocaine/asocket.go: the buffer, and the two sockets with the goroutines that write and read. The
-- connection is the environment: an event says what a Write or a Read of it returns.
pub mod Steps
mod Writes
mod Reads
pub mod Order
use cocaine_framework_go.Prelude.{
  ℕ, suc, if◌then◌else◌, Bytes, Bool, true, false, not, ◌&&◌, List, [], ◌∷◌, ◌++◌,
}
use cocaine_framework_go.Effects.{
  Outcome, done, panic, blocked, ◌>>=◌, close_of_closed_channel, send_on_closed_channel,
}

pub record AsyncBuff : Type 0 where
  pub pending : List Bytes
  pub in_closed : Bool
  pub finished : Bool
  pub stop_closed : Bool
  -- the loop has returned; `out` is closed
  pub ended : Bool

abbrev pub new_async_buf : AsyncBuff
new_async_buf = record {
  pending = [];
  in_closed = false;
  finished = false;
  stop_closed = false;
  ended = false;
}

abbrev is_empty {ℓ} : {A : Type ℓ} → List A → Bool
is_empty [] = true
is_empty (x ∷ xs) = false

-- The head of a round.
unfoldable pub buff_round : AsyncBuff → AsyncBuff
buff_round b = if is_empty b.pending && b.finished then record b { ended = true } else b

-- A send to `in`, which meets `incoming, ok := <-_in`.
unfoldable pub buff_accept : Bytes → AsyncBuff → Outcome AsyncBuff
unfolding buff_round
buff_accept x b =
    if b.in_closed
    then panic send_on_closed_channel
    else if b.ended
    then blocked
    else done (buff_round (record b { pending = b.pending ++ x ∷ [] }))

-- `case _out <- first`, with the receiver.
unfoldable pub buff_take : AsyncBuff → Outcome (AsyncBuff × List Bytes)
unfolding buff_round
buff_take b = if b.ended then blocked else elim b.pending [
  | [] ↦ blocked
  | first ∷ rest ↦ done (buff_round (record b { pending = rest }), first ∷ [])
]

-- close(in), and the round that sees it.
unfoldable pub buff_close_in : AsyncBuff → Outcome AsyncBuff
buff_close_in b =
    if b.in_closed then panic close_of_closed_channel else done (record b { in_closed = true })

unfoldable pub buff_sees_close : AsyncBuff → Outcome AsyncBuff
unfolding buff_round
buff_sees_close b =
    if not b.ended && (b.in_closed && not b.finished)
    then done (buff_round (record b { finished = true }))
    else blocked

-- Stop waits until the loop has returned.
unfoldable pub buff_stop : AsyncBuff → Outcome AsyncBuff
buff_stop b =
    if b.stop_closed
    then panic close_of_closed_channel
    else done (record b { stop_closed = true; ended = true })

-- The goroutine of writeloop: it writes, it drops what it receives, or it has returned.
pub data Writer : Type 0 where
  writing blackhole returned : Writer

-- What both sockets have.
pub record Outgoing : Type 0 where
  pub client_to_sock : AsyncBuff
  -- the broadcast channel `closed`
  pub closed : Bool
  pub conn_closes : ℕ
  pub writer : Writer
  -- what Conn.Write wrote, and what was received from the buffer but not written
  pub wire : List Bytes
  pub dropped : List Bytes

abbrev pub new_outgoing : Outgoing
new_outgoing = record {
  client_to_sock = new_async_buf;
  closed = false;
  conn_closes = 0;
  writer = writing;
  wire = [];
  dropped = [];
}

-- close
unfoldable pub close_once : Outgoing → Outgoing
close_once o = if o.closed then o else record o { closed = true; conn_closes = suc o.conn_closes }

-- sock.Write() <- x
unfoldable pub sock_write : Bytes → Outgoing → Outcome Outgoing
unfolding buff_accept
sock_write x o = buff_accept x o.client_to_sock >>= λ b. done (record o { client_to_sock = b })

-- What is left of writeloop after an error: asyncRWSocket starts a goroutine that receives all
-- that comes, asyncWSocket just returns.
abbrev pub rw_after_error : Writer
rw_after_error = blackhole

abbrev pub w_after_error : Writer
w_after_error = returned

-- What becomes of what the writer received; the Boolean says whether Conn.Write succeeds.
unfoldable pub wrote : Writer → Writer → Bool → List Bytes → Outgoing → Outgoing
unfolding close_once
wrote after writing true x o = record o { wire = o.wire ++ x }
wrote after writing false x o = close_once (record o { writer = after; dropped = o.dropped ++ x })
wrote after blackhole succeeds x o = record o { dropped = o.dropped ++ x }
wrote after returned succeeds x o = o

abbrev has_returned : Writer → Bool
has_returned returned = true
has_returned _ = false

-- A round of writeloop.
unfoldable pub write_round : Writer → Bool → Outgoing → Outcome Outgoing
unfolding buff_take wrote
write_round after succeeds o =
    if has_returned o.writer
    then blocked
    else buff_take o.client_to_sock >>= λ (b, x).
        done (wrote after o.writer succeeds x (record o { client_to_sock = b }))

pub record AsyncRwSocket : Type 0 where
  pub out : Outgoing
  pub socket_to_client : AsyncBuff
  -- the goroutine of readloop has not returned
  pub reading : Bool
  -- what the client received from Read()
  pub received : List Bytes

abbrev pub new_async_rw_socket : AsyncRwSocket
new_async_rw_socket = record {
  out = new_outgoing;
  socket_to_client = new_async_buf;
  reading = true;
  received = [];
}

unfoldable pub rw_close : AsyncRwSocket → Outcome AsyncRwSocket
unfolding buff_stop close_once
rw_close s = buff_stop s.out.client_to_sock >>= λ up. buff_stop s.socket_to_client >>= λ down.
    done (record s {
      out = close_once (record (s.out) { client_to_sock = up });
      socket_to_client = down;
    })

-- The end of readloop.
unfoldable pub rw_read_error : AsyncRwSocket → Outcome AsyncRwSocket
unfolding buff_close_in close_once
rw_read_error s = buff_close_in s.socket_to_client >>= λ down.
    done (record s { socket_to_client = down; out = close_once s.out; reading = false })

-- A round of readloop: what Conn.Read returned, and whether with an error.
unfoldable pub rw_read_round : Bytes → Bool → AsyncRwSocket → Outcome AsyncRwSocket
unfolding buff_accept rw_read_error
rw_read_round [] fails s =
    if s.reading then (if fails then rw_read_error s else done s) else blocked
rw_read_round (x ∷ xs) fails s =
    if s.reading
    then (buff_accept (x ∷ xs) s.socket_to_client >>= λ down.
        let t = record s { socket_to_client = down } in if fails then rw_read_error t else done t)
    else blocked

-- The client receives from Read().
unfoldable pub rw_receive : AsyncRwSocket → Outcome AsyncRwSocket
unfolding buff_take
rw_receive s = buff_take s.socket_to_client >>= λ (b, x).
    done (record s { socket_to_client = b; received = s.received ++ x })

-- asyncWSocket is an Outgoing: its readloop only watches the connection.
unfoldable pub w_close : Outgoing → Outcome Outgoing
unfolding close_once buff_stop
w_close o =
    let o' = close_once o in
    buff_stop o'.client_to_sock >>= λ b. done (record o' { client_to_sock = b })

unfoldable pub w_read_error : Outgoing → Outgoing
unfolding close_once
w_read_error o = close_once o
