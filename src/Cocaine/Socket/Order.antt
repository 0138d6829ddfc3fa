-- ===== src/Cocaine/Socket/Order.antt =====
-- cocaine/asocket.go: the bytes on the connection, in any interleaving of the client, the two
-- goroutines of a socket and its buffers.
use cocaine_framework_go.Prelude.{
  ◌≡◌, ◌≢◌, sym, ap, subst, ◌∙◌, if◌then◌else◌, false, List, [], ◌∷◌, ◌++◌, Bytes, append_assoc,
  append-nil, arith,
}
use cocaine_framework_go.Effects.{done, >>=-eq-done}
use cocaine_framework_go.Cocaine.Socket.{
  writing, Outgoing, new_outgoing, AsyncRwSocket, new_async_rw_socket, w_after_error, w_close,
  w_read_error, buff_stop, close_once,
}
use cocaine_framework_go.Cocaine.Socket.Steps.{
  RwEvent, rw_step, rw_run, WEvent, read_fails, w_step, w_run,
}
use cocaine_framework_go.Cocaine.Socket.Writes.{
  taken, IsValid, sent_once, out_step-taken, out_step-IsValid,
}
use cocaine_framework_go.Cocaine.Socket.Reads.{
  given, rw_sent_once, rw_read_once, rw_step-IsValid, rw_step-taken, rw_step-given,
}

abbrev pub rw_sent : List RwEvent → List Bytes
rw_sent [] = []
rw_sent (e ∷ es) = rw_sent_once e ++ rw_sent es

abbrev pub rw_read : List RwEvent → List Bytes
rw_read [] = []
rw_read (e ∷ es) = rw_read_once e ++ rw_read es

record Ran (es : List RwEvent) (s t : AsyncRwSocket) : Type 0 where
  valid : IsValid t.out
  up : taken t.out ≡ taken s.out ++ rw_sent es
  down : given t ≡ given s ++ rw_read es

rw_run-Ran :
    (es : List RwEvent) (s t : AsyncRwSocket) → rw_run es s ≡ done t → IsValid s.out → Ran es s t
unfolding rw_run
rw_run-Ran [] s t p v =
    let same : s ≡ t = ground arith in
    subst (Ran [] s) same
      (record { valid = v; up = sym (append-nil (taken s.out)); down = sym (append-nil (given s)) })
rw_run-Ran (e ∷ es) s t p v =
    let (u, q, r) = >>=-eq-done (rw_step e s) (rw_run es) p in
    let h = rw_run-Ran es u t r (rw_step-IsValid e s u q v) in
    record {
      valid = h.valid;
      up =
          h.up
          ∙ ap (λ x. x ++ rw_sent es) (rw_step-taken e s u q v)
          ∙ append_assoc (taken s.out) (rw_sent_once e) (rw_sent es);
      down =
          h.down
          ∙ ap (λ x. x ++ rw_read es) (rw_step-given e s u q)
          ∙ append_assoc (given s) (rw_read_once e) (rw_read es);
    }

new_outgoing-IsValid : IsValid new_outgoing
new_outgoing-IsValid = ground arith

-- After any events from a new socket, the packed messages on the connection, those that the
-- writer dropped after an error and those that wait are together, in this order, what the client
-- sent; none is dropped while the socket is not closed; the pieces that the client has received
-- and those that wait are what Read returned, in order; and the connection is closed once if the
-- socket is closed, and never if it is not.
pub rw_order :
    (es : List RwEvent) (s : AsyncRwSocket)
    → rw_run es new_async_rw_socket ≡ done s
    → (s.out.wire ++ (s.out.dropped ++ s.out.client_to_sock.pending) ≡ rw_sent es)
      × (s.out.closed ≡ false → s.out.dropped ≡ [])
      × (s.received ++ s.socket_to_client.pending ≡ rw_read es)
      × (s.out.conn_closes ≡ (if s.out.closed then 1 else 0))
rw_order es s p =
    let h = rw_run-Ran es new_async_rw_socket s p new_outgoing-IsValid in
    (h.up, λ opened. h.valid.nothing_lost (h.valid.lost_closed opened), h.down, h.valid.closed_once)

abbrev w_sent_once : WEvent → List Bytes
w_sent_once (WEvent.goes_out e) = sent_once e
w_sent_once _ = []

abbrev pub w_sent : List WEvent → List Bytes
w_sent [] = []
w_sent (e ∷ es) = w_sent_once e ++ w_sent es

returned-ne : w_after_error ≢ writing
returned-ne e = cc

w_step-IsValid : (e : WEvent) (o t : Outgoing) → w_step e o ≡ done t → IsValid o → IsValid t
unfolding w_step w_close w_read_error buff_stop close_once
w_step-IsValid (WEvent.goes_out e) o t p v = out_step-IsValid w_after_error e o t returned-ne p v
w_step-IsValid read_fails o t p v = ground arith
w_step-IsValid WEvent.closes o t p v = ground arith

w_step-taken :
    (e : WEvent) (o t : Outgoing)
    → w_step e o ≡ done t
    → IsValid o
    → taken t ≡ taken o ++ w_sent_once e
unfolding w_step w_close w_read_error buff_stop close_once
w_step-taken (WEvent.goes_out e) o t p v = out_step-taken w_after_error e o t p v
w_step-taken read_fails o t p v = ground (arith, append-nil (taken o))
w_step-taken WEvent.closes o t p v = ground (arith, append-nil (taken o))

w_run-taken :
    (es : List WEvent) (o t : Outgoing)
    → w_run es o ≡ done t
    → IsValid o
    → IsValid t × (taken t ≡ taken o ++ w_sent es)
unfolding w_run
w_run-taken [] o t p v =
    let same : o ≡ t = ground arith in
    subst (λ x. IsValid x × (taken x ≡ taken o ++ [])) same (v, sym (append-nil (taken o)))
w_run-taken (e ∷ es) o t p v =
    let (u, q, r) = >>=-eq-done (w_step e o) (w_run es) p in
    let (v', h) = w_run-taken es u t r (w_step-IsValid e o u q v) in
    (
      v',
      h
          ∙ ap (λ x. x ++ w_sent es) (w_step-taken e o u q v)
          ∙ append_assoc (taken o) (w_sent_once e) (w_sent es),
    )

-- The same of the socket that is only written to, whose writer returns after an error.
pub w_order :
    (es : List WEvent) (o : Outgoing)
    → w_run es new_outgoing ≡ done o
    → (o.wire ++ (o.dropped ++ o.client_to_sock.pending) ≡ w_sent es)
      × (o.closed ≡ false → o.dropped ≡ [])
      × (o.conn_closes ≡ (if o.closed then 1 else 0))
w_order es o p =
    let (v, h) = w_run-taken es new_outgoing o p new_outgoing-IsValid in
    (h, λ opened. v.nothing_lost (v.lost_closed opened), v.closed_once)
