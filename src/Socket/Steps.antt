-- ===== src/Socket/Steps.antt =====
-- What one event does to the messages of a socket.
use cocaine_framework_go.Prelude.{
  ◌≡◌, ◌≤◌, length, refl, sym, ap, ◌∙◌, if◌then◌else◌, true, false, List, [], ◌∷◌, ◌++◌, none, some,
  append_assoc, append-nil, arith,
}
use cocaine_framework_go.Effects.{done, >>=-eq-done}
use cocaine_framework_go.Message.{Message}
use cocaine_framework_go.Socket.Buffer.{
  AsyncBuff, accept, send_first, close_in, close_stop, buffer_step,
}
use cocaine_framework_go.Socket.{
  Socket, Writer, writing, blackhole, to_buffer, on_closed, close_conn, close, send, write_message,
  Written, flushed, flush_failed, encode_failed, outcome, after_encode, write_round, read_round,
  receive, SocketEvent, sends, writes, reads, receives, closes, upstream_moves, downstream_moves,
  socket_step,
}

-- The messages that Send hands to the buffer, and those that Decode returns.
abbrev pub sent_once : SocketEvent → List Message
sent_once (sends to_buffer msg) = msg ∷ []
sent_once _ = []

abbrev pub read_once : SocketEvent → List Message
read_once (reads (some msg)) = msg ∷ []
read_once _ = []

-- The messages that the socket has taken from its client, in the order of their places, and those
-- that it has taken from the connection.
abbrev pub taken_up : Socket → List Message
taken_up s = s.wire ++ (s.unflushed ++ (s.dropped ++ s.upstream.pending))

abbrev pub taken_down : Socket → List Message
taken_down s = s.received ++ s.downstream.pending

-- What holds between two events.
pub record IsValid (s : Socket) : Type 0 where
  pub nothing_lost : s.writer ≡ writing → s.dropped ≡ []
  pub one_unflushed : length s.unflushed ≤ 1
  pub lost_closed : s.writer ≡ blackhole → s.closed ≡ true
  pub closed_once : s.conn_closes ≡ (if s.closed then 1 else 0)
  pub read_open : s.reading ≡ true → s.downstream.in_closed ≡ false

pub socket_step-IsValid :
    (e : SocketEvent) (s t : Socket) → socket_step e s ≡ done t → IsValid s → IsValid t
unfolding socket_step send accept write_round send_first write_message read_round close_in receive
    close close_stop buffer_step
socket_step-IsValid (sends to_buffer msg) s t p v = ground arith
socket_step-IsValid (sends on_closed msg) s t p v = ground arith
socket_step-IsValid (writes flushed) s t p v = ground arith
socket_step-IsValid (writes flush_failed) s t p v = ground arith
socket_step-IsValid (writes encode_failed) s t p v = ground arith
socket_step-IsValid (reads (some msg)) s t p v = ground arith
socket_step-IsValid (reads none) s t p v = ground arith
socket_step-IsValid receives s t p v = ground arith
socket_step-IsValid closes s t p v = ground arith
socket_step-IsValid (upstream_moves e) s t p v = ground arith
socket_step-IsValid (downstream_moves e) s t p v = ground arith

send_first-done :
    (b c : AsyncBuff) (out : List Message)
    → send_first b ≡ done (c, out)
    → b.pending ≡ out ++ c.pending
unfolding send_first
send_first-done b c out p = ground arith

close_conn-up : (s : Socket) → taken_up (close_conn s) ≡ taken_up s
unfolding close_conn
close_conn-up s = ground arith

-- The message that the writer takes from the queue has its place on the wire or among the dropped.
after_encode-up :
    (r : Written) (msgs : List Message) (s : Socket)
    → s.dropped ≡ []
    → (r ≡ flushed → s.unflushed ≡ [])
    → taken_up (after_encode r msgs s)
      ≡ s.wire ++ (s.unflushed ++ (s.dropped ++ (msgs ++ s.upstream.pending)))
unfolding after_encode
after_encode-up flushed msgs s h k = rw (h, k refl) (append_assoc s.wire msgs s.upstream.pending)
after_encode-up flush_failed msgs s h k =
    rw h (ap (◌++◌ s.wire) (append_assoc s.unflushed msgs s.upstream.pending))
after_encode-up encode_failed msgs s h k =
    close_conn-up (record s { writer = blackhole; dropped = s.dropped ++ msgs })
    ∙ ap (λ x. s.wire ++ (s.unflushed ++ x)) (append_assoc s.dropped msgs s.upstream.pending)

outcome-flushed : (ms : List Message) (r : Written) → outcome ms r ≡ flushed → ms ≡ []
outcome-flushed [] r e = refl
outcome-flushed (m ∷ ms) r e = cc

write_message-up :
    (w : Writer) (r : Written) (msgs : List Message) (s : Socket)
    → (w ≡ writing → s.dropped ≡ [])
    → taken_up (write_message w r msgs s)
      ≡ s.wire ++ (s.unflushed ++ (s.dropped ++ (msgs ++ s.upstream.pending)))
unfolding write_message
write_message-up writing r msgs s h =
    after_encode-up (outcome s.unflushed r) msgs s (h refl) (outcome-flushed s.unflushed r)
write_message-up blackhole r msgs s h =
    ap (λ x. s.wire ++ (s.unflushed ++ x)) (append_assoc s.dropped msgs s.upstream.pending)

write_round-up :
    (encoded : Written) (s t : Socket)
    → write_round encoded s ≡ done t
    → IsValid s
    → taken_up t ≡ taken_up s
unfolding write_round
write_round-up encoded s t p v =
    let ((up, msgs), q, r) =
      >>=-eq-done (send_first s.upstream)
        (λ x. done (write_message s.writer encoded x.1 (record s { upstream = x.0 }))) p in
    let written = write_message s.writer encoded msgs (record s { upstream = up }) in
    let same : written ≡ t = ground (arith, r) in
    ap taken_up (sym same)
    ∙ write_message-up s.writer encoded msgs (record s { upstream = up }) v.nothing_lost
    ∙ ap (λ x. s.wire ++ (s.unflushed ++ (s.dropped ++ x)))
        (sym (send_first-done s.upstream up msgs q))

pub socket_step-up :
    (e : SocketEvent) (s t : Socket)
    → socket_step e s ≡ done t
    → IsValid s
    → taken_up t ≡ taken_up s ++ sent_once e
unfolding socket_step send accept read_round close_in receive send_first close close_stop
    buffer_step close_conn
socket_step-up (sends to_buffer msg) s t p v = ground (
  arith,
  append_assoc s.wire (s.unflushed ++ (s.dropped ++ s.upstream.pending)) (msg ∷ []),
  append_assoc s.unflushed (s.dropped ++ s.upstream.pending) (msg ∷ []),
  append_assoc s.dropped s.upstream.pending (msg ∷ []),
)
socket_step-up (sends on_closed msg) s t p v = ground (arith, append-nil (taken_up s))
socket_step-up (writes encoded) s t p v =
    write_round-up encoded s t p v ∙ sym (append-nil (taken_up s))
socket_step-up (reads (some msg)) s t p v = ground (arith, append-nil (taken_up s))
socket_step-up (reads none) s t p v = ground (arith, append-nil (taken_up s))
socket_step-up receives s t p v = ground (arith, append-nil (taken_up s))
socket_step-up closes s t p v = ground (arith, append-nil (taken_up s))
socket_step-up (upstream_moves e) s t p v = ground (arith, append-nil (taken_up s))
socket_step-up (downstream_moves e) s t p v = ground (arith, append-nil (taken_up s))

receive-down : (s t : Socket) → receive s ≡ done t → taken_down t ≡ taken_down s
unfolding receive
receive-down s t p =
    let ((down, msgs), q, r) =
      >>=-eq-done (send_first s.downstream)
        (λ x. done (record s { downstream = x.0; received = s.received ++ x.1 })) p in
    let same : record s { downstream = down; received = s.received ++ msgs } ≡ t =
      ground (arith, r) in
    ap taken_down (sym same)
    ∙ append_assoc s.received msgs down.pending
    ∙ ap (◌++◌ s.received) (sym (send_first-done s.downstream down msgs q))

write_round-down :
    (encoded : Written) (s t : Socket)
    → write_round encoded s ≡ done t
    → taken_down t ≡ taken_down s
unfolding write_round write_message send_first
write_round-down flushed s t p = ground arith
write_round-down flush_failed s t p = ground arith
write_round-down encode_failed s t p = ground arith

pub socket_step-down :
    (e : SocketEvent) (s t : Socket)
    → socket_step e s ≡ done t
    → taken_down t ≡ taken_down s ++ read_once e
unfolding socket_step send accept read_round close_in close close_stop buffer_step close_conn
socket_step-down (sends to_buffer msg) s t p = ground (arith, append-nil (taken_down s))
socket_step-down (sends on_closed msg) s t p = ground (arith, append-nil (taken_down s))
socket_step-down (writes encoded) s t p =
    write_round-down encoded s t p ∙ sym (append-nil (taken_down s))
socket_step-down (reads (some msg)) s t p =
    ground (arith, append_assoc s.received s.downstream.pending (msg ∷ []))
socket_step-down (reads none) s t p = ground (arith, append-nil (taken_down s))
socket_step-down receives s t p = receive-down s t p ∙ sym (append-nil (taken_down s))
socket_step-down closes s t p = ground (arith, append-nil (taken_down s))
socket_step-down (upstream_moves e) s t p = ground (arith, append-nil (taken_down s))
socket_step-down (downstream_moves e) s t p = ground (arith, append-nil (taken_down s))
