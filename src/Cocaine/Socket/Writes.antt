-- ===== src/Cocaine/Socket/Writes.antt =====
-- cocaine/asocket.go: what one event does to the bytes that the client sent.
use cocaine_framework_go.Prelude.{
  ◌≡◌, refl, sym, ap, ◌∙◌, if◌then◌else◌, Bool, true, false, List, [], ◌∷◌, ◌++◌, Bytes,
  append_assoc, append-nil, arith, Bool-cases, inl, inr, ◌≢◌,
}
use cocaine_framework_go.Effects.{done, blocked, ◌>>=◌, >>=-eq-done}
use cocaine_framework_go.Cocaine.Socket.{
  AsyncBuff, Writer, writing, blackhole, returned, Outgoing, buff_round, buff_accept, buff_take,
  close_once, sock_write, wrote, has_returned, write_round,
}
use cocaine_framework_go.Cocaine.Socket.Steps.{OutEvent, sends, writes, out_step}

-- What the client sent, in the order of its places.
abbrev pub taken : Outgoing → List Bytes
taken o = o.wire ++ (o.dropped ++ o.client_to_sock.pending)

-- What holds between two events.
pub record IsValid (o : Outgoing) : Type 0 where
  pub nothing_lost : o.writer ≡ writing → o.dropped ≡ []
  pub lost_closed : o.closed ≡ false → o.writer ≡ writing
  pub closed_once : o.conn_closes ≡ (if o.closed then 1 else 0)

close_once-IsValid : (o : Outgoing) → IsValid o → IsValid (close_once o)
unfolding close_once
close_once-IsValid o v = ground arith

close_once-taken : (o : Outgoing) → taken (close_once o) ≡ taken o
unfolding close_once
close_once-taken o = ground arith

wrote-taken :
    (after w : Writer) (b : Bool) (x : List Bytes) (o : Outgoing)
    → has_returned w ≡ false
    → (w ≡ writing → o.dropped ≡ [])
    → taken (wrote after w b x o) ≡ o.wire ++ (o.dropped ++ (x ++ o.client_to_sock.pending))
unfolding wrote
wrote-taken after writing true x o n h =
    rw (h refl) (append_assoc o.wire x o.client_to_sock.pending)
wrote-taken after writing false x o n h =
    close_once-taken (record o { writer = after; dropped = o.dropped ++ x })
    ∙ ap (◌++◌ o.wire) (append_assoc o.dropped x o.client_to_sock.pending)
wrote-taken after blackhole b x o n h =
    ap (◌++◌ o.wire) (append_assoc o.dropped x o.client_to_sock.pending)
wrote-taken after returned b x o n h = cc

buff_take-pending :
    (b c : AsyncBuff) (x : List Bytes) → buff_take b ≡ done (c, x) → b.pending ≡ x ++ c.pending
unfolding buff_take buff_round
buff_take-pending b c x p = ground arith

write_round-taken :
    (after : Writer) (succeeds : Bool) (o t : Outgoing)
    → write_round after succeeds o ≡ done t
    → IsValid o
    → taken t ≡ taken o
unfolding write_round
write_round-taken after succeeds o t p v = elim (Bool-cases (has_returned o.writer)) [
  | inl e ↦ let stuck : write_round after succeeds o ≡ blocked = rw (e, write_round) refl in cc
  | inr e ↦
      let runs : write_round after succeeds o ≡ (
          buff_take o.client_to_sock >>= λ (b, x).
          done (wrote after o.writer succeeds x (record o { client_to_sock = b }))) =
        rw (e, write_round) refl in
      let ((b, x), q, r) = >>=-eq-done (buff_take o.client_to_sock) _ (sym runs ∙ p) in
      let written = wrote after o.writer succeeds x (record o { client_to_sock = b }) in
      let same : written ≡ t = ground (arith, r) in
      ap taken (sym same)
      ∙ wrote-taken after o.writer succeeds x (record o { client_to_sock = b }) e v.nothing_lost
      ∙ ap (λ y. o.wire ++ (o.dropped ++ y)) (sym (buff_take-pending o.client_to_sock b x q))
]

wrote-IsValid :
    (after w : Writer) (b : Bool) (x : List Bytes) (o : Outgoing)
    → after ≢ writing
    → w ≡ o.writer
    → IsValid o
    → IsValid (wrote after w b x o)
unfolding wrote close_once
wrote-IsValid after writing true x o n e v = ground arith
wrote-IsValid after writing false x o n e v = ground arith
wrote-IsValid after blackhole b x o n e v = ground arith
wrote-IsValid after returned b x o n e v = v

-- What the client sends.
abbrev pub sent_once : OutEvent → List Bytes
sent_once (sends x) = x ∷ []
sent_once (writes b) = []

pub out_step-taken :
    (after : Writer) (e : OutEvent) (o t : Outgoing)
    → out_step after e o ≡ done t
    → IsValid o
    → taken t ≡ taken o ++ sent_once e
unfolding out_step sock_write buff_accept buff_round
out_step-taken after (sends x) o t p v = ground (
  arith,
  append_assoc o.wire (o.dropped ++ o.client_to_sock.pending) (x ∷ []),
  append_assoc o.dropped o.client_to_sock.pending (x ∷ []),
)
out_step-taken after (writes b) o t p v =
    write_round-taken after b o t p v ∙ sym (append-nil (taken o))

pub out_step-IsValid :
    (after : Writer) (e : OutEvent) (o t : Outgoing)
    → after ≢ writing
    → out_step after e o ≡ done t
    → IsValid o
    → IsValid t
unfolding out_step sock_write buff_accept write_round buff_take
out_step-IsValid after (sends x) o t n p v = ground arith
out_step-IsValid after (writes b) o t n p v = ground (arith, wrote-IsValid after)
