-- ===== src/Socket/Wire.antt =====
-- What goes over the wire, in any interleaving of the client, the two goroutines and the buffers.
use cocaine_framework_go.Prelude.{
  ◌≡◌, ◌≤◌, length, sym, ap, ◌∙◌, subst, if◌then◌else◌, true, List, [], ◌∷◌, ◌++◌, append_assoc,
  append-nil, arith,
}
use cocaine_framework_go.Effects.{done, panic, >>=-eq-done, close_of_closed_channel}
use cocaine_framework_go.Message.{Message}
use cocaine_framework_go.Socket.{
  Socket, writing, blackhole, new_async_rw, close, SocketEvent, socket_step, socket_run,
}
use cocaine_framework_go.Socket.Steps.{
  IsValid, sent_once, read_once, taken_up, taken_down, socket_step-IsValid, socket_step-up,
  socket_step-down,
}

-- The messages that Send has handed to the buffer, and those that Decode has returned.
abbrev pub sent : List SocketEvent → List Message
sent [] = []
sent (e ∷ es) = sent_once e ++ sent es

abbrev pub decoded : List SocketEvent → List Message
decoded [] = []
decoded (e ∷ es) = read_once e ++ decoded es

-- What a run that returns leaves, relative to where it began.
pub record Ran (es : List SocketEvent) (s t : Socket) : Type 0 where
  pub valid : IsValid t
  pub up : taken_up t ≡ taken_up s ++ sent es
  pub down : taken_down t ≡ taken_down s ++ decoded es

socket_run-Ran :
    (es : List SocketEvent) (s t : Socket) → socket_run es s ≡ done t → IsValid s → Ran es s t
unfolding socket_run
socket_run-Ran [] s t p v =
    let same : s ≡ t = ground arith in
    subst (Ran [] s) same (record {
      valid = v;
      up = sym (append-nil (taken_up s));
      down = sym (append-nil (taken_down s));
    })
socket_run-Ran (e ∷ es) s t p v =
    let (u, q, r) = >>=-eq-done (socket_step e s) (socket_run es) p in
    let h = socket_run-Ran es u t r (socket_step-IsValid e s u q v) in
    record {
      valid = h.valid;
      up =
          h.up
          ∙ ap (λ x. x ++ sent es) (socket_step-up e s u q v)
          ∙ append_assoc (taken_up s) (sent_once e) (sent es);
      down =
          h.down
          ∙ ap (λ x. x ++ decoded es) (socket_step-down e s u q)
          ∙ append_assoc (taken_down s) (read_once e) (decoded es);
    }

new_async_rw-IsValid : IsValid new_async_rw
new_async_rw-IsValid = ground arith

run-Ran :
    (es : List SocketEvent) (t : Socket)
    → socket_run es new_async_rw ≡ done t
    → Ran es new_async_rw t
run-Ran es t p = socket_run-Ran es new_async_rw t p new_async_rw-IsValid

-- After any events from a new socket, the messages that were flushed to the wire, the one that was
-- encoded although its flush failed, those that the writer dropped after an error of Encode and
-- those that wait are together, in this order, the messages that Send handed over. At most one
-- message is lost in a flush, and nothing is flushed after it. While Encode has met no error none is
-- dropped, and after one the socket is closed.
pub wire_order :
    (es : List SocketEvent) (t : Socket)
    → socket_run es new_async_rw ≡ done t
    → (t.wire ++ (t.unflushed ++ (t.dropped ++ t.upstream.pending)) ≡ sent es)
      × (length t.unflushed ≤ 1)
      × (t.writer ≡ writing → t.dropped ≡ [])
      × (t.writer ≡ blackhole → t.closed ≡ true)
wire_order es t p =
    let h = run-Ran es t p in
    (h.up, h.valid.one_unflushed, h.valid.nothing_lost, h.valid.lost_closed)

-- After any events from a new socket, the client receives the decoded messages in order: what it
-- has received and what waits for it are together the messages that were decoded.
pub received_order :
    (es : List SocketEvent) (t : Socket)
    → socket_run es new_async_rw ≡ done t
    → t.received ++ t.downstream.pending ≡ decoded es
received_order es t p = (run-Ran es t p).down

-- However the goroutines fail, and after any calls of Close that return, the connection is closed
-- once if the socket is closed, and never if it is not.
pub conn_closed_once :
    (es : List SocketEvent) (t : Socket)
    → socket_run es new_async_rw ≡ done t
    → t.conn_closes ≡ (if t.closed then 1 else 0)
conn_closed_once es t p = (run-Ran es t p).valid.closed_once

-- Close is not idempotent: on the socket that a call of Close left, a second call panics, since
-- it closes the channel `stop` of the buffer again.
pub close_twice : (s t : Socket) → close s ≡ done t → close t ≡ panic close_of_closed_channel
unfolding close
close_twice s t p = ground arith
