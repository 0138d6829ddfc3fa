-- ===== src/Cocaine/Socket/Reads.antt =====
-- cocaine/asocket.go: what one event of asyncRWSocket does in both directions.
use cocaine_framework_go.Prelude.{
  ◌≡◌, ◌≢◌, sym, ap, subst, ◌∙◌, true, false, List, [], ◌∷◌, ◌++◌, Bytes, append_assoc, append-nil,
  arith,
}
use cocaine_framework_go.Effects.{done, >>=-eq-done}
use cocaine_framework_go.Cocaine.Socket.{
  AsyncBuff, writing, AsyncRwSocket, rw_after_error, buff_round, buff_accept, buff_take, buff_stop,
  buff_close_in, buff_sees_close, close_once, rw_close, rw_read_round, rw_read_error, rw_receive,
}
use cocaine_framework_go.Cocaine.Socket.Steps.{
  RwEvent, reads, receives, sees_closed_input, out_step, rw_step,
}
use cocaine_framework_go.Cocaine.Socket.Writes.{
  taken, IsValid, sent_once, out_step-taken, out_step-IsValid,
}

-- What the connection's bytes became, in the order of their places.
abbrev pub given : AsyncRwSocket → List Bytes
given s = s.received ++ s.socket_to_client.pending

-- What the client sends, and what Conn.Read returns with bytes in it.
abbrev pub rw_sent_once : RwEvent → List Bytes
rw_sent_once (RwEvent.goes_out e) = sent_once e
rw_sent_once _ = []

abbrev pub rw_read_once : RwEvent → List Bytes
rw_read_once (reads (x ∷ xs) fails) = (x ∷ xs) ∷ []
rw_read_once _ = []

buff_take-pending :
    (b c : AsyncBuff) (x : List Bytes) → buff_take b ≡ done (c, x) → b.pending ≡ x ++ c.pending
unfolding buff_take buff_round
buff_take-pending b c x p = ground arith

blackhole-ne : rw_after_error ≢ writing
blackhole-ne e = cc

pub rw_step-IsValid :
    (e : RwEvent) (s t : AsyncRwSocket) → rw_step e s ≡ done t → IsValid s.out → IsValid t.out
unfolding rw_step rw_read_round rw_read_error rw_receive rw_close buff_accept buff_close_in
    buff_take buff_stop buff_sees_close close_once
rw_step-IsValid (RwEvent.goes_out e) s t p v =
    let (o, q, r) = >>=-eq-done (out_step rw_after_error e s.out) _ p in
    let same : o ≡ t.out = ground arith in
    subst IsValid same (out_step-IsValid rw_after_error e s.out o blackhole-ne q v)
rw_step-IsValid (reads [] true) s t p v = ground arith
rw_step-IsValid (reads [] false) s t p v = ground arith
rw_step-IsValid (reads (x ∷ xs) true) s t p v = ground arith
rw_step-IsValid (reads (x ∷ xs) false) s t p v = ground arith
rw_step-IsValid receives s t p v = ground arith
rw_step-IsValid sees_closed_input s t p v = ground arith
rw_step-IsValid RwEvent.closes s t p v = ground arith

pub rw_step-taken :
    (e : RwEvent) (s t : AsyncRwSocket)
    → rw_step e s ≡ done t
    → IsValid s.out
    → taken t.out ≡ taken s.out ++ rw_sent_once e
unfolding rw_step rw_read_round rw_read_error rw_receive rw_close buff_accept buff_close_in
    buff_take buff_stop buff_sees_close close_once
rw_step-taken (RwEvent.goes_out e) s t p v =
    let (o, q, r) = >>=-eq-done (out_step rw_after_error e s.out) _ p in
    let same : o ≡ t.out = ground arith in
    subst (λ x. taken x ≡ taken s.out ++ sent_once e) same
      (out_step-taken rw_after_error e s.out o q v)
rw_step-taken (reads [] true) s t p v = ground (arith, append-nil (taken s.out))
rw_step-taken (reads [] false) s t p v = ground (arith, append-nil (taken s.out))
rw_step-taken (reads (x ∷ xs) true) s t p v = ground (arith, append-nil (taken s.out))
rw_step-taken (reads (x ∷ xs) false) s t p v = ground (arith, append-nil (taken s.out))
rw_step-taken receives s t p v = ground (arith, append-nil (taken s.out))
rw_step-taken sees_closed_input s t p v = ground (arith, append-nil (taken s.out))
rw_step-taken RwEvent.closes s t p v = ground (arith, append-nil (taken s.out))

rw_receive-given : (s t : AsyncRwSocket) → rw_receive s ≡ done t → given t ≡ given s
unfolding rw_receive
rw_receive-given s t p =
    let ((b, x), q, r) = >>=-eq-done (buff_take s.socket_to_client) _ p in
    let same : record s { socket_to_client = b; received = s.received ++ x } ≡ t =
      ground (arith, r) in
    ap given (sym same)
    ∙ append_assoc s.received x b.pending
    ∙ ap (◌++◌ s.received) (sym (buff_take-pending s.socket_to_client b x q))

pub rw_step-given :
    (e : RwEvent) (s t : AsyncRwSocket) → rw_step e s ≡ done t → given t ≡ given s ++ rw_read_once e
unfolding rw_step rw_read_round rw_read_error rw_close buff_accept buff_round buff_close_in
    buff_stop buff_sees_close
rw_step-given (RwEvent.goes_out e) s t p =
    let (o, q, r) = >>=-eq-done (out_step rw_after_error e s.out) _ p in
    let same : record s { out = o } ≡ t = ground arith in
    ap given (sym same) ∙ sym (append-nil (given s))
rw_step-given (reads [] true) s t p = ground (arith, append-nil (given s))
rw_step-given (reads [] false) s t p = ground (arith, append-nil (given s))
rw_step-given (reads (x ∷ xs) true) s t p =
    ground (arith, append_assoc s.received s.socket_to_client.pending ((x ∷ xs) ∷ []))
rw_step-given (reads (x ∷ xs) false) s t p =
    ground (arith, append_assoc s.received s.socket_to_client.pending ((x ∷ xs) ∷ []))
rw_step-given receives s t p = rw_receive-given s t p ∙ sym (append-nil (given s))
rw_step-given sees_closed_input s t p = ground (arith, append-nil (given s))
rw_step-given RwEvent.closes s t p = ground (arith, append-nil (given s))
